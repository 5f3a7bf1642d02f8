-- ===== src/Bridge/Wire/Streams.antt =====
-- A connection whose other side sends whole packets.
use mathlib.Core.List.{append-nil, append_assoc}
use study_sys.Prelude.{
  ℕ, zero, suc, ◌+◌, ◌-◌, ◌≤◌, ◌<◌, ◌≡◌, ◌∙◌, refl, sym, ap, Bool, true, false, ◌&&◌, List, [], ◌∷◌,
  ◌++◌, arith, length, leb, ltb, all, ◌⊎◌, inl, inr,
}
use study_sys.Bridge.Wire.{
  Conn, Ending, eof, silence, ok, stop, M, ◌>>=◌, ◌>>◌, World, text, max_packet, pack, recv,
  read_size, read_body, read_sized_packet, on_packet, Stop, disconnect, timeout, serve, raise,
}
use study_sys.Bridge.Wire.Frames.{
  at, bind_ok, read_body_whole, read_size_whole, read_size-more, length-pack, bind_stop,
}
use study_sys.Bridge.Wire.Proxy.{frame, handle}

-- The bytes of the packets, in order.
unfoldable pub stream : (List ℕ → List ℕ) → List (List ℕ) → List ℕ
stream compress [] = []
stream compress (p ∷ ps) = frame (compress p) ++ stream compress ps

abbrev pub last_stop : Ending → Stop
last_stop eof = disconnect
last_stop silence = timeout

recv_end :
    (n : ℕ) (ds : List ℕ) (c : Conn)
    → c.ending ≡ silence
    → recv n (at c [] ds) ≡ stop timeout (at c [] ds)
unfolding recv
recv_end n ds c e = rw e refl

recv_eof :
    (n : ℕ) (ds : List ℕ) (c : Conn) → c.ending ≡ eof → recv n (at c [] ds) ≡ ok [] (at c [] ds)
unfolding recv
recv_eof n ds c e = rw e refl

Ending-cases : (e : Ending) → (e ≡ eof) ⊎ (e ≡ silence)
Ending-cases eof = inl refl
Ending-cases silence = inr refl

read_size_end :
    (fuel : ℕ) (ds : List ℕ) (c : Conn)
    → 1 ≤ fuel
    → read_size fuel [] (at c [] ds) ≡ stop (last_stop c.ending) (at c [] ds)
read_size_end zero ds c le = absurd (omega arith)
read_size_end (suc fuel) ds c le =
    let more = read_size-more fuel [] (at c [] ds) (omega arith) in
    let rest : List ℕ → M ℕ =
      λ got. elim got [ [] ↦ raise disconnect | x ∷ xs ↦ read_size fuel ([] ++ (x ∷ xs)) ] in
    elim (Ending-cases c.ending) [
      | inl e ↦
          more
          ∙ bind_ok (recv 4) rest (recv_eof 4 ds c e)
          ∙ ap (λ x. stop (last_stop x) (at c [] ds)) (sym e)
      | inr e ↦
          more
          ∙ bind_stop (recv 4) rest (recv_end 4 ds c e)
          ∙ ap (λ x. stop (last_stop x) (at c [] ds)) (sym e)
    ]

-- A packet is no longer than the code allows, and than the fuel.
abbrev pub fits : World → List ℕ → Bool
fits w body = leb (length body) max_packet && ltb (length body) w.fuel

module _ (w : World) (compress : List ℕ → List ℕ)
    (unzips : (p : List ℕ) → w.unzip (compress p) ≡ text p)
    (stays : (p : List ℕ) → w.stays p ≡ true) (enough : 5 ≤ w.fuel) where
  abbrev given : Conn → List ℕ → Conn
  given c p = record c { packets = c.packets ++ (p ∷ []) }

  on_packet_text : (p : List ℕ) (c : Conn) → on_packet w (compress p) c ≡ ok tt (given c p)
  unfolding on_packet
  on_packet_text p c = rw (unzips p, stays p, on_packet) refl

  packet_whole :
      (p rest ds : List ℕ) (c : Conn)
      → fits w (compress p) ≡ true
      → (ds' : List ℕ) × (read_sized_packet w
            (length (compress p))
            []
            (at c (compress p ++ rest) ds)
          ≡ ok tt (at (given c p) rest ds'))
  unfolding read_sized_packet
  packet_whole p rest ds c ok_size =
      let (ds', e) = read_body_whole w.fuel (compress p) [] rest ds c (ground (arith, ok_size)) in
      let small : ltb max_packet (length (compress p)) ≡ false = ground (arith, ok_size) in
      let none_yet : length (compress p) - 0 ≡ length (compress p) = omega arith in
      (
        ds',
        rw (small, read_sized_packet)
            (rw none_yet (
              bind_ok (read_body w.fuel (length (compress p)) []) (on_packet w) e
              ∙ on_packet_text p (at c rest ds'))),
      )

  serve_whole :
      (texts : List (List ℕ)) (fuel : ℕ) (ds : List ℕ) (c : Conn)
      → all (λ p. fits w (compress p)) texts ≡ true
      → length texts < fuel
      → (ds' : List ℕ) × (serve fuel w (at c (stream compress texts) ds)
          ≡ stop (last_stop c.ending) (at (record c { packets = c.packets ++ texts }) [] ds'))
  unfolding serve stream frame
  serve_whole texts zero ds c ok_sizes lt = absurd (omega arith)
  serve_whole [] (suc fuel) ds c ok_sizes lt = (
    ds,
    bind_stop (read_size w.fuel []) (λ n. read_sized_packet w n [] >> serve fuel w)
          (read_size_end w.fuel ds c (omega arith))
        ∙ ap (λ x. stop (last_stop c.ending) (at (record c { packets = x }) [] ds))
            (sym (append-nil c.packets)),
  )
  serve_whole (p ∷ ps) (suc fuel) ds c ok_sizes lt =
      let b = compress p in
      let n = length b in
      let rest = stream compress ps in
      let (ds1, sized) =
        read_size_whole w.fuel n [] (pack n) (b ++ rest) ds c refl (ground (arith, ok_sizes))
          (omega (arith, length-pack n)) in
      let (ds2, done) = packet_whole p rest ds1 c (ground (arith, ok_sizes)) in
      let (ds3, later) =
        serve_whole ps fuel ds2 (given c p) (ground (arith, ok_sizes)) (omega arith) in
      (
        ds3,
        ap
              (λ x.
                (read_size w.fuel [] >>= λ n. read_sized_packet w n [] >> serve fuel w) (at c x ds))
              (append_assoc (pack n) b rest)
            ∙ bind_ok (read_size w.fuel []) (λ n. read_sized_packet w n [] >> serve fuel w) sized
            ∙ bind_ok (read_sized_packet w n []) (λ _. serve fuel w) done
            ∙ later
            ∙ ap (λ x. stop (last_stop c.ending) (at (record c { packets = x }) [] ds3))
                (append_assoc c.packets (p ∷ []) ps),
      )

handle-serve : (w : World) (c : Conn) → w.is_proxy ≡ false → handle w c ≡ serve (suc w.fuel) w c
unfolding handle serve
handle-serve w c direct = rw (direct, handle) refl

-- Packets that come through whole are handed to `on_packet` one by one and in order, however the
-- socket cuts their bytes, and then the connection ends as the other side ends it: by `Disconnect`
-- when it closes, by a timeout when it falls silent. This is if the client is no proxy, zlib
-- gives back what it compressed, `on_packet` returns, the packets are at most 8 MB long, and the
-- fuel is longer than they are and than their number.
pub handle_delivers :
    (w : World) (compress : List ℕ → List ℕ) (texts : List (List ℕ)) (ds : List ℕ) (c : Conn)
    → w.is_proxy ≡ false
    → ((p : List ℕ) → w.unzip (compress p) ≡ text p)
    → ((p : List ℕ) → w.stays p ≡ true)
    → all (λ p. fits w (compress p)) texts ≡ true
    → 5 + length texts ≤ w.fuel
    → (ds' : List ℕ) × (handle w (at c (stream compress texts) ds)
        ≡ stop (last_stop c.ending) (at (record c { packets = c.packets ++ texts }) [] ds'))
handle_delivers w compress texts ds c direct unzips stays ok_sizes enough =
    let (ds', e) =
      serve_whole w compress unzips stays (omega arith) texts (suc w.fuel) ds c ok_sizes
        (omega arith) in
    (ds', handle-serve w (at c (stream compress texts) ds) direct ∙ e)
