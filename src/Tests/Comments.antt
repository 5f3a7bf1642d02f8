-- ===== src/Tests/Comments.antt =====
-- Two comments, of which one has the vote of the user 4.
use study_sys.Prelude.{◌≡◌, refl, true, false, [], ◌∷◌, ℕ}
use mathlib.Core.Int.{ℤ, pos, negsuc}
use mathlib.Core.Nat.{zero, suc}
use study_sys.Comments.{
  cast_vote, vote_on, find_vote, find_comment, vote_posted, Comment, Tables, Voter, number, success,
  vote_comment, bad_request,
}
use study_sys.Comments.Tally.{tally, AreTallied, vote_comment-AreTallied}
use study_sys.Comments.Undo.{vote_comment-opposite}

abbrev one_up : ℤ
one_up = pos (suc zero)

abbrev one_down : ℤ
one_down = negsuc zero

abbrev comment_at : ℕ → ℤ → Comment
comment_at id score = record { id = id; author = 9; hidden = false; score = score }

abbrev tables : Tables
tables = record {
  comments = comment_at 1 one_up ∷ comment_at 2 (pos zero) ∷ [];
  votes = record { voter = 4; comment_id = 1; score = one_up } ∷ [];
}

abbrev voter : ℕ → Voter
voter id = record { id = id; is_staff = false; has_any_solves = true; mute = false }

tables-AreTallied : AreTallied tables.votes tables.comments
unfolding AreTallied tally
tables-AreTallied = (refl, (refl, tt))

vote_comment-AreTallied_example :
    let t = (vote_comment true (number 1) (voter 5) one_down tables).0 in
    AreTallied t.votes t.comments
vote_comment-AreTallied_example =
    vote_comment-AreTallied true (number 1) (voter 5) one_down tables tables-AreTallied

vote_comment-opposite_example :
    let (u, first) = vote_comment true (number 2) (voter 4) one_up tables in
    (first ≡ success) × (vote_comment true (number 2) (voter 4) one_down u ≡ (tables, success))
unfolding find_comment find_vote
vote_comment-opposite_example =
    vote_comment-opposite 2 (voter 4) one_up tables (comment_at 2 (pos zero)) refl refl refl refl
      refl refl

-- The same vote again is refused.
voted_twice : (vote_comment true (number 1) (voter 4) one_up tables) ≡ (tables, bad_request)
unfolding vote_comment vote_posted vote_on cast_vote find_comment find_vote
voted_twice = refl
