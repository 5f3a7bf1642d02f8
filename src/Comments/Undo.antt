-- ===== src/Comments/Undo.antt =====
-- A vote and its opposite.
use study_sys.Prelude.{
  ℕ, true, false, ◌||◌, ◌≡◌, ◌∙◌, refl, ap, none, some, List, [], ◌∷◌, ◌==◌, arith, Bool-cases, inl,
  inr, ==_self,
}
use mathlib.Core.Int.{ℤ, pos, negsuc, ◌+ℤ◌, neg_ℤ, +ℤ_assoc, +ℤ_invr}
use mathlib.Core.Option.{map as map_option}
use mathlib.Core.Nat.{zero, suc}
use study_sys.Comments.{
  Comment, CommentVote, Tables, Voter, number, success, vote_comment, find_comment, find_vote,
  update_score, save_vote, take_back, cast_vote, delete_vote, vote_on, vote_posted, is_unit,
  same_score, same_nat,
}

same_nat_self : (n : mathlib.Core.Nat.ℕ) → same_nat n n ≡ true
same_nat_self zero = refl
same_nat_self (suc n) = same_nat_self n

same_score_self : (a : ℤ) → same_score a a ≡ true
same_score_self (pos n) = same_nat_self n
same_score_self (negsuc n) = same_nat_self n

is_unit-neg_ℤ : (d : ℤ) → is_unit d ≡ true → is_unit (neg_ℤ d) ≡ true
is_unit-neg_ℤ (pos zero) e = e
is_unit-neg_ℤ (pos (suc zero)) e = refl
is_unit-neg_ℤ (pos (suc (suc n))) e = ground (arith, e)
is_unit-neg_ℤ (negsuc zero) e = refl
is_unit-neg_ℤ (negsuc (suc n)) e = ground (arith, e)

back : (s d : ℤ) → (s +ℤ d) +ℤ neg_ℤ d ≡ s
back s d = +ℤ_assoc s d (neg_ℤ d) ∙ ap (λ x. s +ℤ x) (+ℤ_invr d)

update_score_back :
    (id : ℕ) (d : ℤ) (cs : List Comment) → update_score id (neg_ℤ d) (update_score id d cs) ≡ cs
unfolding update_score
update_score_back id d [] = refl
update_score_back id d (c ∷ cs) = elim (Bool-cases (c.id == id)) [
  | inl here ↦ rw (here) (rw (here) (rw (back c.score d, update_score_back id d cs) refl))
  | inr other ↦ rw (other) (rw (other) (rw (update_score_back id d cs) refl))
]

abbrev rescored : ℤ → Comment → Comment
rescored d c = record c { score = c.score +ℤ d }

find_comment-update_score :
    (id : ℕ) (d : ℤ) (cs : List Comment)
    → find_comment id (update_score id d cs) ≡ map_option (rescored d) (find_comment id cs)
unfolding find_comment update_score
find_comment-update_score id d [] = refl
find_comment-update_score id d (b ∷ bs) = elim (Bool-cases (b.id == id)) [
  | inl here ↦ rw (here) (elim (Bool-cases b.hidden) [
    | inl gone ↦ rw (here, gone) (find_comment-update_score id d bs)
    | inr seen ↦ rw (here, seen) refl
  ])
  | inr other ↦ rw (other) (rw (other) (find_comment-update_score id d bs))
]

-- A request that passes the tests of the user and of the comment.
vote_comment-cast_vote :
    (id : ℕ) (user : Voter) (d : ℤ) (t : Tables) (c : Comment)
    → is_unit d ≡ true
    → (user.is_staff || user.has_any_solves) ≡ true
    → user.mute ≡ false
    → find_comment id t.comments ≡ some c
    → (c.author == user.id) ≡ false
    → vote_comment true (number id) user d t ≡ cast_vote id user d t
unfolding vote_comment vote_posted vote_on
vote_comment-cast_vote id user d t c unit solver speaks found other =
    ground (arith, unit, solver, speaks, found, other)

abbrev vote_of : ℕ → Voter → ℤ → CommentVote
vote_of id user d = record { voter = user.id; comment_id = id; score = d }

found_saved :
    (id : ℕ) (user : Voter) (d : ℤ) (vs : List CommentVote)
    → find_vote id user.id (vote_of id user d ∷ vs) ≡ some (vote_of id user d)
unfolding find_vote
found_saved id user d vs = rw (==_self id, ==_self user.id) refl

delete_saved :
    (id : ℕ) (user : Voter) (d : ℤ) (vs : List CommentVote)
    → delete_vote id user.id (vote_of id user d ∷ vs) ≡ vs
unfolding delete_vote
delete_saved id user d vs = rw (==_self id, ==_self user.id) refl

take_back_saved :
    (id : ℕ) (user : Voter) (d : ℤ) (t : Tables)
    → cast_vote id user (neg_ℤ d) (save_vote id user d t) ≡ (t, success)
unfolding cast_vote save_vote take_back
take_back_saved id user d t =
    rw (found_saved id user d t.votes, cast_vote)
      (rw (same_score_self (neg_ℤ d))
        (rw (update_score_back id d t.comments, delete_saved id user d t.votes) refl))

-- A user who may vote, and who has no vote on a comment of another author that is not hidden, takes
-- a vote back by the opposite vote: both requests succeed and the tables are as before.
pub vote_comment-opposite :
    (id : ℕ) (user : Voter) (d : ℤ) (t : Tables) (c : Comment)
    → is_unit d ≡ true
    → (user.is_staff || user.has_any_solves) ≡ true
    → user.mute ≡ false
    → find_comment id t.comments ≡ some c
    → (c.author == user.id) ≡ false
    → find_vote id user.id t.votes ≡ none
    → let (u, first) = vote_comment true (number id) user d t in
      (first ≡ success) × (vote_comment true (number id) user (neg_ℤ d) u ≡ (t, success))
unfolding save_vote cast_vote
vote_comment-opposite id user d t c unit solver speaks found other fresh =
    let cast : vote_comment true (number id) user d t ≡ (save_vote id user d t, success) =
      vote_comment-cast_vote id user d t c unit solver speaks found other
      ∙ rw (fresh, cast_vote) refl in
    let later : find_comment id (update_score id d t.comments) ≡ some (rescored d c) =
      find_comment-update_score id d t.comments ∙ ap (map_option (rescored d)) found in
    rw (cast) (
      refl,
      vote_comment-cast_vote id user (neg_ℤ d) (save_vote id user d t) _ (is_unit-neg_ℤ d unit)
            solver speaks later other
          ∙ take_back_saved id user d t,
    )
