-- ===== src/Comments.antt =====
-- judge/views/comment.py, `vote_comment`: votes on comments (judge/models/comment.py). Requests come
-- one after another, so that `save` fails exactly if the user has voted, and the loop ends.
pub mod Tally
pub mod Undo
use study_sys.Prelude.{
  ℕ, Bool, true, false, not, ◌&&◌, ◌||◌, Option, none, some, List, [], ◌∷◌, ◌==◌, if◌then◌else◌,
  map,
}
use mathlib.Core.Int.{ℤ, pos, negsuc, ◌+ℤ◌, neg_ℤ}
use mathlib.Core.Nat.{zero, suc}

pub record Comment : Type 0 where
  pub id : ℕ
  pub author : ℕ
  pub hidden : Bool
  pub score : ℤ

pub record CommentVote : Type 0 where
  pub voter : ℕ
  pub comment_id : ℕ
  pub score : ℤ

pub record Tables : Type 0 where
  pub comments : List Comment
  pub votes : List CommentVote

-- `request.profile` and its user.
pub record Voter : Type 0 where
  pub id : ℕ
  pub is_staff : Bool
  pub has_any_solves : Bool
  pub mute : Bool

-- `request.POST['id']`: it may be missing or too long, or not a number.
pub data PostedId : Type 0 where
  unusable : PostedId
  number : ℕ → PostedId

pub data Response : Type 0 where
  success bad_request forbidden not_found : Response

abbrev pub is_unit : ℤ → Bool
is_unit (pos (suc zero)) = true
is_unit (negsuc zero) = true
is_unit _ = false

abbrev pub same_nat : mathlib.Core.Nat.ℕ → mathlib.Core.Nat.ℕ → Bool
same_nat zero zero = true
same_nat (suc m) (suc n) = same_nat m n
same_nat _ _ = false

abbrev pub same_score : ℤ → ℤ → Bool
same_score (pos m) (pos n) = same_nat m n
same_score (negsuc m) (negsuc n) = same_nat m n
same_score _ _ = false

-- `Comment.objects.filter(id=comment_id, hidden=False).first()`
unfoldable pub find_comment : ℕ → List Comment → Option Comment
find_comment id [] = none
find_comment id (c ∷ cs) = if c.id == id && not c.hidden then some c else find_comment id cs

abbrev pub is_vote : ℕ → ℕ → CommentVote → Bool
is_vote id voter v = v.comment_id == id && v.voter == voter

-- `CommentVote.objects.get(comment_id=comment_id, voter=request.profile)`
unfoldable pub find_vote : ℕ → ℕ → List CommentVote → Option CommentVote
find_vote id voter [] = none
find_vote id voter (v ∷ vs) = if is_vote id voter v then some v else find_vote id voter vs

-- `vote.delete()`, for the vote that `find_vote` finds
unfoldable pub delete_vote : ℕ → ℕ → List CommentVote → List CommentVote
delete_vote id voter [] = []
delete_vote id voter (v ∷ vs) = if is_vote id voter v then vs else v ∷ delete_vote id voter vs

-- `Comment.objects.filter(id=comment_id).update(score=F('score') + delta)`
unfoldable pub update_score : ℕ → ℤ → List Comment → List Comment
update_score id delta [] = []
update_score id delta (c ∷ cs) =
    (if c.id == id then record c { score = c.score +ℤ delta } else c) ∷ update_score id delta cs

unfoldable pub save_vote : ℕ → Voter → ℤ → Tables → Tables
unfolding update_score
save_vote id user delta t = record {
  comments = update_score id delta t.comments;
  votes = record { voter = user.id; comment_id = id; score = delta } ∷ t.votes;
}

unfoldable pub take_back : ℕ → Voter → ℤ → Tables → Tables
unfolding update_score delete_vote
take_back id user score t = record {
  comments = update_score id (neg_ℤ score) t.comments;
  votes = delete_vote id user.id t.votes;
}

-- The vote on a comment that the user may vote on.
unfoldable pub cast_vote : ℕ → Voter → ℤ → Tables → Tables × Response
unfolding find_vote save_vote take_back
cast_vote id user delta t = elim (find_vote id user.id t.votes) [
  | none ↦ (save_vote id user delta t, success)
  | some v ↦
      if same_score (neg_ℤ v.score) delta
      then (take_back id user v.score t, success)
      else (t, bad_request)
]

unfoldable pub vote_on : ℕ → Voter → ℤ → Tables → Tables × Response
unfolding cast_vote find_comment
vote_on id user delta t = elim (find_comment id t.comments) [
  | none ↦ (t, not_found)
  | some c ↦ if c.author == user.id then (t, bad_request) else cast_vote id user delta t
]

unfoldable pub vote_posted : PostedId → Voter → ℤ → Tables → Tables × Response
unfolding vote_on
vote_posted unusable user delta t = (t, bad_request)
vote_posted (number id) user delta t = vote_on id user delta t

unfoldable pub vote_comment : Bool → PostedId → Voter → ℤ → Tables → Tables × Response
unfolding vote_posted
vote_comment is_post id user delta t =
    if not (is_unit delta)
    then (t, bad_request)
    else if not is_post
    then (t, forbidden)
    else if not user.is_staff && not user.has_any_solves
    then (t, bad_request)
    else if user.mute
    then (t, bad_request)
    else vote_posted id user delta t
