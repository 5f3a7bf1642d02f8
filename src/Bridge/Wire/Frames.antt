-- ===== src/Bridge/Wire/Frames.antt =====
-- What the reading loops give on a socket that has the bytes they ask for.
use mathlib.Core.List.{append-nil, append_assoc}
use study_sys.Prelude.{
  ℕ, zero, suc, ◌+◌, ◌-◌, ◌≤◌, ◌<◌, ◌≡◌, ◌∙◌, refl, sym, ap, true, false, some, List, [], ◌∷◌, ◌++◌,
  arith, length, take, drop, take-drop, take_of_append, drop_of_append, length-take, length-drop,
  length-append, leb, ◌==◌,
}
use study_sys.Bridge.Wire.{
  Conn, Stop, ok, stop, endless, M, ◌>>=◌, pack, unpack, how_many, rest_of, recv, read_size,
  read_body, raise, disconnect,
}

abbrev pub at : Conn → List ℕ → List ℕ → Conn
at c bytes draws = record c { bytes = bytes; draws = draws }

how_many_bounds : (n : ℕ) (ds : List ℕ) → 1 ≤ n → (1 ≤ how_many n ds) × (how_many n ds ≤ n)
how_many_bounds n [] le = omega arith
how_many_bounds n (d ∷ ds) le = omega arith

pub recv_some :
    (n : ℕ) (b rest ds : List ℕ) (c : Conn)
    → 1 ≤ n
    → n ≤ length b
    → recv n (at c (b ++ rest) ds)
      ≡ ok (take (how_many n ds) b) (at c (drop (how_many n ds) b ++ rest) (rest_of ds))
unfolding recv
recv_some n [] rest ds c le fits = absurd (omega arith)
recv_some n (x ∷ xs) rest ds c le fits =
    let k = how_many n ds in
    let bound : k ≤ length (x ∷ xs) = omega (arith, how_many_bounds n ds le) in
    rw (take_of_append k (x ∷ xs) rest bound, drop_of_append k (x ∷ xs) rest bound) refl

pub bind_ok :
    {A B : Type 0} (m : M A) (f : A → M B) {c d : Conn} {a : A} → m c ≡ ok a d → (m >>= f) c ≡ f a d
bind_ok m f e = ap (λ r. elim r [ ok a d ↦ f a d | stop e d ↦ stop e d | endless ↦ endless ]) e

pub bind_stop :
    {A B : Type 0} (m : M A) (f : A → M B) {c d : Conn} {e : Stop}
    → m c ≡ stop e d
    → (m >>= f) c ≡ stop e d
bind_stop m f e = ap (λ r. elim r [ ok a d ↦ f a d | stop e d ↦ stop e d | endless ↦ endless ]) e

not_zero : (n : ℕ) → (suc n == 0) ≡ false
not_zero n = ground arith

pub read_body-suc :
    (fuel n : ℕ) (acc : List ℕ) (c : Conn)
    → read_body (suc fuel) (suc n) acc c
      ≡ (recv (suc n) >>= λ got. read_body fuel (suc n - length got) (acc ++ got)) c
unfolding read_body
read_body-suc fuel n acc c = rw (not_zero n, read_body) refl

-- A packet's body arrives whole, however the socket cuts it.
pub read_body_whole :
    (fuel : ℕ) (b acc rest ds : List ℕ) (c : Conn)
    → length b < fuel
    → (ds' : List ℕ) × (read_body fuel (length b) acc (at c (b ++ rest) ds)
        ≡ ok (acc ++ b) (at c rest ds'))
unfolding read_body
read_body_whole zero b acc rest ds c lt = absurd (omega arith)
read_body_whole (suc fuel) [] acc rest ds c lt =
    (ds, ap (λ x. ok x (at c rest ds)) (sym (append-nil acc)))
read_body_whole (suc fuel) (x ∷ xs) acc rest ds c lt =
    let b = x ∷ xs in
    let n = length b in
    let k = how_many n ds in
    let bounds = how_many_bounds n ds (omega arith) in
    let (ds', e) =
      read_body_whole fuel (drop k b) (acc ++ take k b) rest (rest_of ds) c
        (omega (arith, length-drop k b, bounds)) in
    let left : n - length (take k b) ≡ length (drop k b) =
      omega (arith, length-drop k b, length-take k b, bounds) in
    (
      ds',
      read_body-suc fuel (length xs) acc (at c (b ++ rest) ds)
          ∙ bind_ok (recv n) (λ got. read_body fuel (n - length got) (acc ++ got))
              (recv_some n b rest ds c (omega arith) (omega arith))
          ∙ ap (λ r. read_body fuel r (acc ++ take k b) (at c (drop k b ++ rest) (rest_of ds))) left
          ∙ e
          ∙ ap (λ x. ok x (at c rest ds'))
              (append_assoc acc (take k b) (drop k b) ∙ ap (λ x. acc ++ x) (take-drop k b)),
    )

pub unpack-pack : (n : ℕ) → n < 4294967296 → unpack (pack n) ≡ some n
unfolding unpack pack
unpack-pack n lt = ap some (omega arith)

pub length-pack : (n : ℕ) → length (pack n) ≡ 4
unfolding pack
length-pack n = refl

four_read :
    (fuel n : ℕ) (pre : List ℕ) (c : Conn)
    → pre ≡ pack n
    → n < 4294967296
    → read_size (suc fuel) pre c ≡ ok n c
unfolding read_size
four_read fuel n pre c e lt =
    let enough : leb 4 (length (pack n)) ≡ true = ground (arith, length-pack n) in
    rw e (rw (enough, unpack-pack n lt, read_size) refl)

pub read_size-more :
    (fuel : ℕ) (pre : List ℕ) (c : Conn)
    → length pre < 4
    → read_size (suc fuel) pre c
      ≡ (recv (4 - length pre) >>= λ got. elim got [
        | [] ↦ raise disconnect
        | x ∷ xs ↦ read_size fuel (pre ++ (x ∷ xs))
      ])
          c
unfolding read_size
read_size-more fuel pre c lt =
    let e : leb 4 (length pre) ≡ false = ground arith in rw (e, read_size) refl

-- `got` is not empty.
go_on :
    (fuel : ℕ) (pre got : List ℕ) (d : Conn)
    → 1 ≤ length got
    → (elim got as (λ _. M ℕ) [ [] ↦ raise disconnect | x ∷ xs ↦ read_size fuel (pre ++ (x ∷ xs)) ])
        d
      ≡ read_size fuel (pre ++ got) d
go_on fuel pre [] d le = absurd (omega arith)
go_on fuel pre (x ∷ xs) d le = refl

-- A size arrives whole, whatever part of it, `pre`, is there.
pub read_size_whole :
    (fuel n : ℕ) (pre b rest ds : List ℕ) (c : Conn)
    → pre ++ b ≡ pack n
    → n < 4294967296
    → length b < fuel
    → (ds' : List ℕ) × (read_size fuel pre (at c (b ++ rest) ds) ≡ ok n (at c rest ds'))
read_size_whole zero n pre b rest ds c e fits lt = absurd (omega arith)
read_size_whole (suc fuel) n pre [] rest ds c e fits lt =
    (ds, four_read fuel n pre (at c rest ds) (sym (append-nil pre) ∙ e) fits)
read_size_whole (suc fuel) n pre (x ∷ xs) rest ds c e fits lt =
    let b = x ∷ xs in
    let whole : length pre + length b ≡ 4 =
      omega (arith, length-append pre b, ap length e, length-pack n) in
    let m = 4 - length pre in
    let k = how_many m ds in
    let bounds = how_many_bounds m ds (omega (arith, whole)) in
    let size = length-take k b (omega (arith, whole, bounds)) in
    let (ds', found) =
      read_size_whole fuel n (pre ++ take k b) (drop k b) rest (rest_of ds) c
        (append_assoc pre (take k b) (drop k b) ∙ ap (λ y. pre ++ y) (take-drop k b) ∙ e) fits
        (omega (arith, length-drop k b, bounds)) in
    (
      ds',
      read_size-more fuel pre (at c (b ++ rest) ds) (omega (arith, whole))
          ∙ bind_ok (recv m)
              (λ got. elim got [
                | [] ↦ raise disconnect
                | x ∷ xs ↦ read_size fuel (pre ++ (x ∷ xs))
              ])
              (recv_some m b rest ds c (omega (arith, whole)) (omega (arith, whole)))
          ∙ go_on fuel pre (take k b) (at c (drop k b ++ rest) (rest_of ds))
              (omega (arith, size, bounds))
          ∙ found,
    )
