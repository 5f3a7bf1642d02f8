-- ===== src/Bridge/Wire/Faults.antt =====
-- Two ways in which the loops of the connection do not end as they should.
use study_sys.Prelude.{
  ℕ, zero, suc, ◌+◌, ◌-◌, ◌≤◌, ◌<◌, ◌≡◌, ◌∙◌, refl, ap, false, List, [], ◌∷◌, ◌++◌, arith, length,
  take, drop, take-drop, length-append, ltb,
}
use study_sys.Bridge.Wire.{
  Conn, eof, ok, stop, endless, ◌>>=◌, World, max_packet, how_many, rest_of, recv, read_size,
  read_body, read_sized_packet, on_packet, struct_error, unpack, M,
}
use study_sys.Bridge.Wire.Frames.{at, bind_ok, read_body-suc}
use study_sys.Bridge.Wire.Proxy.{read_remainder, take_packet, is_caught}

-- What `recv` leaves is shorter by what it returns, and the end stays the same.
record Shorter (c d : Conn) (got : List ℕ) : Type 0 where
  count : length got + length d.bytes ≡ length c.bytes
  ending : d.ending ≡ eof

recv_bytes :
    (n : ℕ) (bytes ds : List ℕ) (c : Conn)
    → c.ending ≡ eof
    → (got : List ℕ) × (d : Conn) × (recv n (at c bytes ds) ≡ ok got d)
      × Shorter (at c bytes ds) d got
unfolding recv
recv_bytes n [] ds c e = ([], at c [] ds, rw e refl, record { count = omega arith; ending = e })
recv_bytes n (x ∷ xs) ds c e =
    let k = how_many n ds in
    let b = x ∷ xs in
    let cut = length-append (take k b) (drop k b) in
    let whole = ap length (take-drop k b) in
    (
      take k b,
      at c (drop k b) (rest_of ds),
      refl,
      record { count = omega (arith, cut, whole); ending = e },
    )

recv-Shorter :
    (n : ℕ) (c : Conn)
    → c.ending ≡ eof
    → (got : List ℕ) × (d : Conn) × (recv n c ≡ ok got d) × Shorter c d got
recv-Shorter n c e = recv_bytes n c.bytes c.draws c e

endless_read :
    (fuel remainder : ℕ) (buffer : List ℕ) (c : Conn)
    → c.ending ≡ eof
    → length c.bytes < remainder
    → read_body fuel remainder buffer c ≡ endless
unfolding read_body
endless_read zero remainder buffer c e lt = refl
endless_read (suc fuel) zero buffer c e lt = absurd (omega arith)
endless_read (suc fuel) (suc n) buffer c e lt =
    let (got, d, r, s) = recv-Shorter (suc n) c e in
    read_body-suc fuel n buffer c
    ∙ bind_ok (recv (suc n)) (λ x. read_body fuel (suc n - length x) (buffer ++ x)) r
    ∙ endless_read fuel (suc n - length got) (buffer ++ got) d s.ending (omega (arith, s.count))

bind_endless :
    {A B : Type 0} (m : M A) (f : A → M B) {c : Conn} → m c ≡ endless → (m >>= f) c ≡ endless
bind_endless m f e = ap (λ r. elim r [ ok a d ↦ f a d | stop e d ↦ stop e d | endless ↦ endless ]) e

-- `read_sized_packet` never ends when the other side closes the connection before the whole packet
-- has come, however much fuel there is: the loop asks for more bytes and takes the empty answer.
pub read_sized_packet-endless :
    (w : World) (size : ℕ) (initial : List ℕ) (c : Conn)
    → c.ending ≡ eof
    → size ≤ max_packet
    → length initial + length c.bytes < size
    → read_sized_packet w size initial c ≡ endless
unfolding read_sized_packet
read_sized_packet-endless w size initial c e le lt =
    let small : ltb max_packet size ≡ false = ground arith in
    let reading = endless_read w.fuel (size - length initial) initial c e (omega arith) in
    rw (small, read_sized_packet)
      (bind_endless (read_body w.fuel (size - length initial) initial) (on_packet w) reading)

-- When less than four bytes follow the header of the PROXY protocol, the first packet is read, and
-- then the handler fails with a struct.error, which it does not catch.
pub read_remainder_fails :
    (fuel : ℕ) (w : World) (x : ℕ) (xs : List ℕ) (c d : Conn)
    → length xs < 3
    → (read_size w.fuel (x ∷ xs) >>= λ n. read_sized_packet w n []) c ≡ ok tt d
    → (read_remainder (suc fuel) w (x ∷ xs) c ≡ stop struct_error d)
      × (is_caught struct_error ≡ false)
unfolding read_remainder take_packet is_caught unpack
read_remainder_fails fuel w x [] c d short first = (
  bind_ok (read_size w.fuel (x ∷ []) >>= λ n. read_sized_packet w n [])
      (λ _. take_packet w (x ∷ []) >>= read_remainder fuel w) first,
  refl,
)
read_remainder_fails fuel w x (y ∷ []) c d short first = (
  bind_ok (read_size w.fuel (x ∷ y ∷ []) >>= λ n. read_sized_packet w n [])
      (λ _. take_packet w (x ∷ y ∷ []) >>= read_remainder fuel w) first,
  refl,
)
read_remainder_fails fuel w x (y ∷ z ∷ []) c d short first = (
  bind_ok (read_size w.fuel (x ∷ y ∷ z ∷ []) >>= λ n. read_sized_packet w n [])
      (λ _. take_packet w (x ∷ y ∷ z ∷ []) >>= read_remainder fuel w) first,
  refl,
)
read_remainder_fails fuel w x (y ∷ z ∷ a ∷ xs) c d short first = absurd (omega arith)
