-- ===== src/Dpos/Tally.antt =====
-- A delegate's number of votes against the votes that are recorded.
use mathlib.Core.Path.{subst}
use tc_node_validator_go.Base.{
  ℕ, ◌+◌, String, ◌≡◌, ◌≢◌, refl, sym, inl, inr, true, false, Bool-cases, Option, none, some,
  Option-cases, [], ◌∷◌, ℤ, pos, negsuc, ◌+ℤ◌, ◌-ℤ◌, int_laws, str_eq, eq_iff, if◌then◌else◌, Dict,
  lookup, contains, insert, adjust, lookup-insert, lookup-adjust, contains-adjust, FloatOps, ok,
  arith,
}
use tc_node_validator_go.Dpos.State.{DelegateInfo, Dpos, new_delegate}
use tc_node_validator_go.Dpos.Delegates.{
  more_votes, fewer_votes, revote, register_vote, register_delegate,
}

-- How many voters vote for a delegate.
unfoldable pub votes_for : String → Dict String → ℕ
votes_for name [] = 0
votes_for name ((voter, target) ∷ m) = (if str_eq target name then 1 else 0) + votes_for name m

-- What a voter's earlier vote counts for a delegate.
abbrev earlier : String → Option String → ℕ
earlier name none = 0
earlier name (some target) = if str_eq target name then 1 else 0

votes_for-insert :
    (voter target name : String) (m : Dict String)
    → votes_for name (insert voter target m) + earlier name (lookup voter m)
      ≡ votes_for name m + (if str_eq target name then 1 else 0)
unfolding votes_for insert lookup
votes_for-insert voter target name [] = ground arith
votes_for-insert voter target name ((v, t) ∷ m) =
    ground (arith, votes_for-insert voter target name m)

counted_up : (v w : ℤ) (a b c : ℕ) → v ≡ w +ℤ pos c → w ≡ pos a → b + 0 ≡ a + c → v ≡ pos b
counted_up v w a b c up was sum = rw (up, was) (omega (int_laws, sum))

counted_over :
    (v k w : ℤ) (a b c e : ℕ)
    → v ≡ k +ℤ pos c
    → k ≡ w -ℤ pos e
    → w ≡ pos a
    → b + e ≡ a + c
    → v ≡ pos b
counted_over v k w a b c e up down was sum = rw (up, down, was) (omega (int_laws, sum))

module _ {F : Type 0} where
  -- Every delegate has as many votes as voters whose recorded vote is for it.
  abbrev pub IsCounted : Dpos F → Type 0
  IsCounted d =
      (name : String) (i : DelegateInfo F)
      → lookup name d.delegates ≡ some i
      → i.votes ≡ pos (votes_for name d.votes_by_node_id)

  -- What a delegate had before one was given a vote, or had one taken back.
  before_more :
      (name who : String) (m : Dict (DelegateInfo F)) (i : DelegateInfo F)
      → lookup who (adjust name more_votes m) ≡ some i
      → (j : DelegateInfo F) × (lookup who m ≡ some j)
        × (i.votes ≡ j.votes +ℤ pos (if str_eq name who then 1 else 0))
  before_more name who m i found = elim (Option-cases (lookup who m)) [
    | inl none_ ↦ absurd (ground (arith, lookup-adjust name who more_votes m, none_, found))
    | inr (j, e) ↦ (
      j,
      e,
      elim (Bool-cases (str_eq name who)) [
        | inl same ↦ rw same (ground (arith, lookup-adjust name who more_votes m, e, found, same))
        | inr not_ ↦
            let keep : j ≡ i =
              ground (arith, lookup-adjust name who more_votes m, e, found, not_) in
            rw (not_, sym keep) (omega int_laws)
      ],
    )
  ]

  before_fewer :
      (name who : String) (m : Dict (DelegateInfo F)) (i : DelegateInfo F)
      → lookup who (adjust name fewer_votes m) ≡ some i
      → (j : DelegateInfo F) × (lookup who m ≡ some j)
        × (i.votes ≡ j.votes -ℤ pos (if str_eq name who then 1 else 0))
  before_fewer name who m i found = elim (Option-cases (lookup who m)) [
    | inl none_ ↦ absurd (ground (arith, lookup-adjust name who fewer_votes m, none_, found))
    | inr (j, e) ↦ (
      j,
      e,
      elim (Bool-cases (str_eq name who)) [
        | inl same ↦ rw same (ground (arith, lookup-adjust name who fewer_votes m, e, found, same))
        | inr not_ ↦
            let keep : j ≡ i =
              ground (arith, lookup-adjust name who fewer_votes m, e, found, not_) in
            rw (not_, sym keep) (omega int_laws)
      ],
    )
  ]

  revote-IsCounted :
      (voter name : String) (previous : Option String) (d : Dpos F)
      → lookup voter d.votes_by_node_id ≡ previous
      → IsCounted d
      → IsCounted (revote voter name previous d).1
  revote-IsCounted voter name none d e c who i found =
      let (j, was, more) = before_more name who d.delegates i found in
      let sum = votes_for-insert voter name who d.votes_by_node_id in
      counted_up i.votes j.votes (votes_for who d.votes_by_node_id) _ _ more (c who j was) (
        subst
          (λ o.
            votes_for who (insert voter name d.votes_by_node_id) + earlier who o
            ≡ votes_for who d.votes_by_node_id + (if str_eq name who then 1 else 0))
          e sum)
  revote-IsCounted voter name (some previous) d e c who i found =
      elim (Option-cases (lookup previous d.delegates)) [
        | inl missing ↦ rw (revote, missing) (c who i (rw (revote, missing) at found))
        | inr (p, there) ↦
            let (k, then_, more) =
              before_more name who (adjust previous fewer_votes d.delegates) i
                (rw (revote, there) at found) in
            let (j, was, fewer) = before_fewer previous who d.delegates k then_ in
            rw (revote, there)
              (counted_over i.votes k.votes j.votes (votes_for who d.votes_by_node_id) _ _ _ more
                fewer (c who j was)
                (subst
                  (λ o.
                    votes_for who (insert voter name d.votes_by_node_id) + earlier who o
                    ≡ votes_for who d.votes_by_node_id + (if str_eq name who then 1 else 0))
                  e (votes_for-insert voter name who d.votes_by_node_id)))
      ]

  -- Registering a vote, also one that replaces an earlier vote of the same voter, keeps the votes of
  -- every delegate equal to the number of voters whose recorded vote is for it.
  pub register_vote-IsCounted :
      (voter name : String) (d : Dpos F) → IsCounted d → IsCounted (register_vote voter name d).1
  unfolding register_vote
  register_vote-IsCounted voter name d c = elim (Option-cases (lookup name d.delegates)) [
    | inl e ↦ rw (e, register_vote) c
    | inr (k, e) ↦
        rw (e, register_vote)
          (revote-IsCounted voter name (lookup voter d.votes_by_node_id) d refl c)
  ]

one_fewer : (v k w : ℤ) (e : ℕ) → v ≡ k +ℤ pos 0 → k ≡ w -ℤ pos e → w ≡ pos 0 → e ≡ 1 → v ≡ negsuc 0
one_fewer v k w e up down was one = rw (up, down, was, one) (omega int_laws)

-- A voter turns from one delegate, that has no votes, to another.
switch_vote :
    {F : Type 0} (node other voter : String) (x j : DelegateInfo F) (d : Dpos F)
    → node ≢ other
    → lookup other d.delegates ≡ some x
    → lookup voter d.votes_by_node_id ≡ some node
    → lookup node d.delegates ≡ some j
    → j.votes ≡ pos 0
    → let (r, d') = register_vote voter other d in
      (r ≡ ok tt)
      × (i : DelegateInfo F) × (lookup node d'.delegates ≡ some i)
      × (i.votes ≡ negsuc 0)
unfolding register_vote
switch_vote {F = F} node other voter x j d differ there voted mine zero_votes =
    rw (register_vote, there, revote, voted, mine) (refl, left.0, left.1, left.2)
  where
    apart : str_eq other node ≡ false
    apart = ground (arith, eq_iff other node)

    moved : Dict (DelegateInfo F)
    moved = adjust other more_votes (adjust node fewer_votes d.delegates)

    left : (i : DelegateInfo F) × (lookup node moved ≡ some i) × (i.votes ≡ negsuc 0)
    left = elim (Option-cases (lookup node moved)) [
      | inl missing ↦ absurd (
          ground (
            arith,
            missing,
            mine,
            contains-adjust other node more_votes (adjust node fewer_votes d.delegates),
            contains-adjust node node fewer_votes d.delegates,
          ))
      | inr (i, found) ↦
          let (k, then_, more) =
            before_more other node (adjust node fewer_votes d.delegates) i found in
          let (w, was, fewer) = before_fewer node node d.delegates k then_ in
          (
            i,
            found,
            one_fewer i.votes k.votes w.votes _ (rw apart at more) fewer
                (ground (arith, was, mine, zero_votes)) (ground (arith, eq_iff node node)),
          )
    ]

-- A delegate that registers again, with enough stake, loses its votes, while those who voted for
-- it stay recorded: when one of them then votes for another delegate that exists, the vote is
-- recorded and the first is left with -1 votes.
pub votes_after_reregistration :
    {F : Type 0} (f : FloatOps F) (node other voter now : String) (stake : F) (d : Dpos F)
    → f.lt stake (f.decimal 100 0) ≡ false
    → node ≢ other
    → contains other d.delegates ≡ true
    → lookup voter d.votes_by_node_id ≡ some node
    → let d' = (register_delegate f node stake now d).1 in
      let (r, d'') = register_vote voter other d' in
      (r ≡ ok tt)
      × (i : DelegateInfo F) × (lookup node d''.delegates ≡ some i)
      × (i.votes ≡ negsuc 0)
unfolding register_vote register_delegate
votes_after_reregistration f node other voter now stake d enough differ there voted =
    elim (Option-cases (lookup other d.delegates)) [
      | inl missing ↦ absurd (ground (arith, there, missing))
      | inr (x, found) ↦
          let m = insert node (new_delegate f node stake now) d.delegates in
          rw (register_delegate, enough)
            (switch_vote node other voter x (new_delegate f node stake now) _ differ
              (ground (
                arith,
                lookup-insert node other (new_delegate f node stake now) d.delegates,
                found,
                eq_iff node other,
              ))
              voted
              (ground (
                arith,
                lookup-insert node node (new_delegate f node stake now) d.delegates,
                eq_iff node node,
              ))
              refl)
    ]
