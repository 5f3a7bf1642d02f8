-- ===== src/Comments/Tally.antt =====
-- The scores of comments and the votes.
use study_sys.Prelude.{
  ℕ, Bool, true, false, not, ◌&&◌, ◌≡◌, ◌∙◌, refl, sym, ap, some, List, [], ◌∷◌, ◌==◌,
  if◌then◌else◌, arith, Option-cases, Bool-cases, inl, inr,
}
use mathlib.Core.Int.{ℤ, pos, ◌+ℤ◌, neg_ℤ, +ℤ_assoc, +ℤ_comm, +ℤ_invl, +ℤ_idl}
use mathlib.Core.Nat.{zero}
use study_sys.Comments.{
  is_unit, same_score, take_back, find_comment, save_vote, vote_posted, cast_vote, vote_on,
  delete_vote, find_vote, update_score, Comment, CommentVote, Tables, Voter, PostedId, number,
  unusable, Response, vote_comment,
}

-- The sum of the votes on a comment.
unfoldable pub tally : ℕ → List CommentVote → ℤ
tally id [] = pos zero
tally id (v ∷ vs) = if v.comment_id == id then v.score +ℤ tally id vs else tally id vs

-- The score of each of these comments is the sum of its votes.
unfoldable pub AreTallied : List CommentVote → List Comment → Type 0
AreTallied vs [] = Unit {0}
AreTallied vs (c ∷ cs) = (c.score ≡ tally c.id vs) × AreTallied vs cs

==_swap : (a b : ℕ) → (a == b) ≡ (b == a)
==_swap a b = ground arith

shift : (a b d t : ℤ) → a ≡ t → b ≡ d +ℤ t → a +ℤ d ≡ b
shift a b d t e f = ap (λ x. x +ℤ d) e ∙ +ℤ_comm t d ∙ sym f

undo : (a t : ℤ) → neg_ℤ a +ℤ (a +ℤ t) ≡ t
undo a t = sym (+ℤ_assoc (neg_ℤ a) a t) ∙ ap (λ x. x +ℤ t) (+ℤ_invl a) ∙ +ℤ_idl t

swap : (a b t : ℤ) → a +ℤ (b +ℤ t) ≡ b +ℤ (a +ℤ t)
swap a b t = sym (+ℤ_assoc a b t) ∙ ap (λ x. x +ℤ t) (+ℤ_comm a b) ∙ +ℤ_assoc b a t

update_score-AreTallied :
    (id : ℕ) (delta : ℤ) (vs ws : List CommentVote)
    → ((j : ℕ) → tally j ws ≡ (if j == id then delta +ℤ tally j vs else tally j vs))
    → (cs : List Comment) → AreTallied vs cs
    → AreTallied ws (update_score id delta cs)
unfolding AreTallied update_score
update_score-AreTallied id delta vs ws same [] h = tt
update_score-AreTallied id delta vs ws same (c ∷ cs) (h, hs) = elim (Bool-cases (c.id == id)) [
  | inl here ↦ rw (here) (
    shift c.score _ delta (tally c.id vs) h (same c.id ∙ rw (here) refl),
    update_score-AreTallied id delta vs ws same cs hs,
  )
  | inr other ↦
      rw (other)
        (h ∙ sym (same c.id ∙ rw (other) refl), update_score-AreTallied id delta vs ws same cs hs)
]

tally-save :
    (id voter j : ℕ) (delta : ℤ) (vs : List CommentVote)
    → tally j (record { voter = voter; comment_id = id; score = delta } ∷ vs)
      ≡ (if j == id then delta +ℤ tally j vs else tally j vs)
unfolding tally
tally-save id voter j delta vs = rw (==_swap j id) refl

tally-delete :
    (id voter j : ℕ) (v : CommentVote) (vs : List CommentVote)
    → find_vote id voter vs ≡ some v
    → tally j (delete_vote id voter vs)
      ≡ (if j == id then neg_ℤ v.score +ℤ tally j vs else tally j vs)
unfolding tally find_vote delete_vote
tally-delete id voter j v [] e = ground arith
tally-delete id voter j v (w ∷ vs) e = ground (
  arith,
  e,
  undo w.score (tally j vs),
  swap w.score (neg_ℤ v.score) (tally j vs),
  tally-delete id voter j v vs,
)

cast_vote-IsTallied :
    (id : ℕ) (user : Voter) (delta : ℤ) (t : Tables)
    → AreTallied t.votes t.comments
    → AreTallied (cast_vote id user delta t).0.votes (cast_vote id user delta t).0.comments
unfolding cast_vote save_vote take_back
cast_vote-IsTallied id user delta t h = elim (Option-cases (find_vote id user.id t.votes)) [
  | inl fresh ↦
      rw (fresh, cast_vote)
        (update_score-AreTallied id delta t.votes _ (λ j. tally-save id user.id j delta t.votes)
          t.comments h)
  | inr (v, found) ↦
      rw (found, cast_vote)
        (elim (Bool-cases (same_score (neg_ℤ v.score) delta)) [
          | inl back ↦ rw (back) (
              update_score-AreTallied id (neg_ℤ v.score) t.votes _
                (λ j. tally-delete id user.id j v t.votes found) t.comments h)
          | inr again ↦ rw (again) h
        ])
]

vote_on-IsTallied :
    (id : ℕ) (user : Voter) (delta : ℤ) (t : Tables)
    → AreTallied t.votes t.comments
    → AreTallied (vote_on id user delta t).0.votes (vote_on id user delta t).0.comments
unfolding vote_on
vote_on-IsTallied id user delta t h = elim (Option-cases (find_comment id t.comments)) [
  | inl gone ↦ rw (gone, vote_on) h
  | inr (c, found) ↦
      rw (found, vote_on)
        (elim (Bool-cases (c.author == user.id)) [
          | inl own ↦ rw (own) h
          | inr other ↦ rw (other) (cast_vote-IsTallied id user delta t h)
        ])
]

abbrev IsTallied : Tables × Response → Type 0
IsTallied a = AreTallied a.0.votes a.0.comments

if-IsTallied :
    (b : Bool) (x y : Tables × Response)
    → IsTallied x
    → IsTallied y
    → IsTallied (if b then x else y)
if-IsTallied true x y h k = h
if-IsTallied false x y h k = k

vote_posted-IsTallied :
    (id : PostedId) (user : Voter) (delta : ℤ) (t : Tables)
    → AreTallied t.votes t.comments
    → IsTallied (vote_posted id user delta t)
unfolding vote_posted
vote_posted-IsTallied unusable user delta t h = h
vote_posted-IsTallied (number id) user delta t h = vote_on-IsTallied id user delta t h

-- If the score of each comment is the sum of its votes, it is so after any request for a vote.
pub vote_comment-AreTallied :
    (is_post : Bool) (id : PostedId) (user : Voter) (delta : ℤ) (t : Tables)
    → AreTallied t.votes t.comments
    → AreTallied
        (vote_comment is_post id user delta t).0.votes
        (vote_comment is_post id user delta t).0.comments
unfolding vote_comment
vote_comment-AreTallied is_post id user delta t h = if-IsTallied (not (is_unit delta)) _ _ h (
    if-IsTallied (not is_post) _ _ h (
      if-IsTallied (not user.is_staff && not user.has_any_solves) _ _ h
        (if-IsTallied user.mute _ _ h (vote_posted-IsTallied id user delta t h))))
