-- ===== src/Bridge/Packets/Throttle.antt =====
-- The limit of the rate at which the updates of a submission are posted.
use study_sys.Prelude.{
  max, ℕ, ◌≡◌, ◌≤◌, ◌+◌, true, some, List, [], ◌∷◌, arith, all, leb, if◌then◌else◌,
}
use study_sys.Prelude.Dict.{lookup, insert, lookup-insert}
use study_sys.Bridge.Packets.{throttle, update_rate_limit, update_rate_time}

-- How many of the updates of `id` at these times are posted.
unfoldable pub posted : ℕ → List ℕ → List (ℕ × (ℕ × ℕ)) → ℕ
posted id [] counter = 0
posted id (now ∷ times) counter =
    let (later, do_post) = throttle now id counter in
    (if do_post then 1 else 0) + posted id times later

posted_window :
    (id cnt reset : ℕ) (times : List ℕ) (counter : List (ℕ × (ℕ × ℕ)))
    → lookup id counter ≡ some (cnt, reset)
    → all (λ t. leb t (reset + update_rate_time)) times ≡ true
    → cnt + posted id times counter ≤ max cnt update_rate_limit
unfolding posted throttle
posted_window id cnt reset [] counter e h = omega arith
posted_window id cnt reset (now ∷ times) counter e h = ground (
  arith,
  e,
  h,
  lookup-insert id id (cnt + 1, reset) counter,
  posted_window id (cnt + 1) reset times (insert id (cnt + 1, reset) counter),
)

-- Of the updates of a submission that come within half a second of the first one at most five are
-- posted, if nothing was counted before.
pub throttle_bounds :
    (id first : ℕ) (times : List ℕ)
    → all (λ t. leb t (first + update_rate_time)) times ≡ true
    → posted id (first ∷ times) [] ≤ update_rate_limit
unfolding posted throttle
throttle_bounds id first times h =
    ground (arith, h, posted_window id 1 first times ((id, (1, first)) ∷ []))
