-- ===== src/Server/Delivery.antt =====
-- p2p/handlers.go: `broadcastBlockToNode`, and the signatures of blocks.
use Prim.Native.Char.{Char, code}
use Prim.Native.String.{◌++◌ as str_append}
use text.Mathlib.TextLemmas.{cons-append}
use tc_node_validator_go.Base.{
  ℕ, zero, suc, ◌+◌, ◌*◌, ◌≤◌, ◌<◌, ◌≡◌, ◌∙◌, ap, refl, String, Bool, true, false, ◌||◌, Option,
  none, some, ◌==◌, str_eq, eq_iff, if◌then◌else◌, Bool-cases, inl, inr, ◌⊎◌, arith,
}

-- What became of a block that was sent: how often it was posted, the seconds waited, and whether
-- the node took it.
pub record Delivery : Type 0 where
  pub posts : ℕ
  pub waited : ℕ
  pub accepted : Bool

-- The status of an answer, `none` for an error: 201 and 200 end the loop.
unfoldable pub takes : Option ℕ → Bool
takes none = false
takes (some status) = status == 201 || status == 200

-- The loop with a number of attempts left; `reply` is what each of them gets.
unfoldable pub deliver : ℕ → ℕ → (ℕ → Option ℕ) → Delivery
deliver zero delay reply = record { posts = 0; waited = 0; accepted = false }
deliver (suc left) delay reply =
    let rest = deliver left (delay * 2) (λ n. reply (suc n)) in
    if takes (reply 0) then record { posts = 1; waited = 0; accepted = true } else record {
      posts = suc rest.posts;
      waited = (if left == 0 then 0 else delay) + rest.waited;
      accepted = rest.accepted;
    }

abbrev pub max_retries : ℕ
max_retries = 3

-- A request that cannot be made ends the call at once.
unfoldable pub broadcast_block_to_node : Bool → (ℕ → Option ℕ) → Delivery
broadcast_block_to_node false reply = record { posts = 0; waited = 0; accepted = false }
broadcast_block_to_node true reply = deliver max_retries 2 reply

-- One of a number of attempts is the first to be taken, and the posts end with it; or none is
-- taken, and all are posted.
pub Tried : ℕ → (ℕ → Option ℕ) → Delivery → Type 0
Tried attempts reply d =
    ((d.accepted ≡ true)
      × ((first : ℕ) × (d.posts ≡ suc first)
          × (first < attempts)
          × (takes (reply first) ≡ true)
          × ((earlier : ℕ) → earlier < first → takes (reply earlier) ≡ false)))
    ⊎ ((d.accepted ≡ false)
        × (d.posts ≡ attempts)
        × ((attempt : ℕ) → attempt < attempts → takes (reply attempt) ≡ false))

-- What holds at the first place and behind it holds below a bound.
all_below :
    (n : ℕ) (reply : ℕ → Option ℕ)
    → takes (reply 0) ≡ false
    → ((i : ℕ) → i < n → takes (reply (suc i)) ≡ false)
    → (i : ℕ) → i < suc n
    → takes (reply i) ≡ false
all_below n reply e rest zero h = e
all_below n reply e rest (suc i) h = rest i (omega (arith, h))

refused_step :
    (left delay : ℕ) (reply : ℕ → Option ℕ)
    → takes (reply 0) ≡ false
    → ((deliver (suc left) delay reply).posts
        ≡ suc (deliver left (delay * 2) (λ n. reply (suc n))).posts)
      × ((deliver (suc left) delay reply).accepted
          ≡ (deliver left (delay * 2) (λ n. reply (suc n))).accepted)
unfolding deliver
refused_step left delay reply e = rw (e, deliver) (refl, refl)

deliver-Tried :
    (attempts delay : ℕ) (reply : ℕ → Option ℕ)
    → Tried attempts reply (deliver attempts delay reply)
unfolding deliver Tried
deliver-Tried zero delay reply = inr (refl, refl, λ i h. absurd (omega (arith, h)))
deliver-Tried (suc left) delay reply = elim (Bool-cases (takes (reply 0))) [
  | inl e ↦
      rw (e, deliver) (inl (refl, (0, refl, omega arith, e, λ i h. absurd (omega (arith, h)))))
  | inr e ↦
      let (posts, accepted) = refused_step left delay reply e in
      elim (deliver-Tried left (delay * 2) (λ n. reply (suc n))) [
        | inl (took, (first, count, inside, taken, before)) ↦ inl (
          accepted ∙ took,
          (
            suc first,
            posts ∙ ap suc count,
            omega (arith, inside),
            taken,
            all_below first reply e before,
          ),
        )
        | inr (failed, count, refused) ↦
            inr (accepted ∙ failed, posts ∙ ap suc count, all_below left reply e refused)
      ]
]

pause_bound : (reply : ℕ → Option ℕ) → (deliver 3 2 reply).waited ≤ 6
unfolding deliver
pause_bound reply = ground arith

-- A block that can be put into a request is posted at most three times, and never again once it is
-- taken: it counts as accepted exactly when one of three attempts is taken, and the posts are those
-- up to the first such. The pauses are at most six seconds in all.
pub broadcast_block_to_node-Tried :
    (reply : ℕ → Option ℕ)
    → Tried max_retries reply (broadcast_block_to_node true reply)
      × ((broadcast_block_to_node true reply).waited ≤ 6)
unfolding broadcast_block_to_node
broadcast_block_to_node-Tried reply = (deliver-Tried 3 2 reply, pause_bound reply)

-- `hmac_hex` is HMAC-SHA256 in hexadecimal, by key and message.
module _ (hmac_hex : String → String → String) where
  unfoldable pub sign_block : String → String → String
  sign_block hash private_key = hmac_hex private_key hash

unfoldable pub verify_node_signature : String → String → String → Bool
verify_node_signature private_key block_hash signature =
    str_eq signature
      (str_append "signed(" (str_append block_hash (str_append ", " (str_append private_key ")"))))

-- The first byte of a text, 0 of none.
unfoldable pub first_byte : String → ℕ
first_byte String.[] = 0
first_byte (String.◌∷◌ c s) = code c

first_byte-append : (c : Char) (s t : String) → first_byte (str_append (String.◌∷◌ c s) t) ≡ code c
unfolding first_byte
first_byte-append c s t = rw (cons-append c s t) refl

expected-first_byte : (t : String) → first_byte (str_append "signed(" t) ≡ b's'
expected-first_byte t = first_byte-append _ _ t

-- Where HMAC texts begin with a hexadecimal digit, a signature that `signBlock` makes is never
-- accepted by `verifyNodeSignature`, whatever the hash and the keys are.
pub verify_node_signature-sign_block :
    (hmac_hex : String → String → String)
    → ((key message : String) → first_byte (hmac_hex key message) ≤ b'f')
    → (key private_key hash : String)
    → verify_node_signature private_key hash (sign_block hmac_hex hash key) ≡ false
unfolding verify_node_signature sign_block
verify_node_signature-sign_block hmac_hex hex key private_key hash =
    elim (Bool-cases (str_eq (hmac_hex key hash) expected)) [
      | inr e ↦ e
      | inl e ↦
          let same = ap first_byte ((eq_iff (hmac_hex key hash) expected).0 e) in
          absurd (
            omega (
              arith,
              same,
              hex key hash,
              expected-first_byte (str_append hash (str_append ", " (str_append private_key ")"))),
            ))
    ]
  where
    expected : String
    expected = str_append "signed(" (str_append hash (str_append ", " (str_append private_key ")")))
