-- ===== src/Contest/Disqualified.antt =====
-- What a disqualification does, and what lifting it does.
use study_sys.Prelude.{ℕ, ◌≡◌, true, false, List, [], ◌∷◌, arith, elem, ◌==◌, if◌then◌else◌}
use study_sys.Contest.Participation.{
  Participation, disqualified_score, Standing, set_disqualified, discard, add, is_current,
}

-- What `update_participation` of a format leaves alone.
pub record LeavesIdentity (update : Participation → Participation) : Type 0 where
  pub same_flag : (p : Participation) → (update p).is_disqualified ≡ p.is_disqualified
  pub same_user : (p : Participation) → (update p).user ≡ p.user
  pub same_id : (p : Participation) → (update p).id ≡ p.id

elem-add : (i : ℕ) (xs : List ℕ) → elem i (add i xs) ≡ true
elem-add i xs = ground arith

elem-discard :
    (i j : ℕ) (xs : List ℕ) → elem j (discard i xs) ≡ (if j == i then false else elem j xs)
elem-discard i j [] = ground arith
elem-discard i j (x ∷ xs) = ground (arith, elem-discard i j xs)

-- Whatever the format computes, a disqualified participation has the score -9999 and no time, its
-- user is barred from the contest, and is no longer in it with this participation.
pub set_disqualified_bars :
    (update : Participation → Participation) (s : Standing)
    → LeavesIdentity update
    → let t = set_disqualified update true s in
      (t.participation.score ≡ disqualified_score)
      × (t.participation.cumtime ≡ 0)
      × (elem s.participation.user t.banned_users ≡ true)
      × (is_current s.participation.id t.current_contest ≡ false)
unfolding set_disqualified
set_disqualified_bars update s keeps =
    let q = record s.participation { is_disqualified = true } in
    ground (
      arith,
      keeps.same_flag q,
      keeps.same_user q,
      keeps.same_id q,
      elem-add s.participation.user s.banned_users,
    )

-- Lifting a disqualification gives the participation what the format computes for it, whatever its
-- score was, and takes its user, and nobody else, off the list of barred users.
pub set_disqualified_lifts :
    (update : Participation → Participation) (s : Standing)
    → LeavesIdentity update
    → let t = set_disqualified update false s in
      (t.participation ≡ update (record s.participation { is_disqualified = false }))
      × ((i : ℕ)
          → elem i t.banned_users
            ≡ (if i == s.participation.user then false else elem i s.banned_users))
unfolding set_disqualified
set_disqualified_lifts update s keeps =
    let q = record s.participation { is_disqualified = false } in
    (
      ground (arith, keeps.same_flag q),
      λ i. ground (
        arith,
        keeps.same_flag q,
        keeps.same_user q,
        elem-discard s.participation.user i s.banned_users,
      ),
    )
