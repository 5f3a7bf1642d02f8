-- ===== src/Tests/Wire.antt =====
-- Packets of a few bytes under a compression that doubles every byte, cut in odd places.
use study_sys.Prelude.{ap, ℕ, ◌≡◌, refl, true, false, List, [], ◌∷◌, arith}
use study_sys.Bridge.Wire.{
  Conn, eof, World, text, stop, disconnect, unpack, recv, read_size, read_body, read_sized_packet,
  on_packet, serve,
}
use study_sys.Bridge.Wire.Proxy.{frame, handle}
use study_sys.Bridge.Wire.Frames.{at}
use study_sys.Bridge.Wire.Streams.{stream, handle_delivers}

abbrev double : List ℕ → List ℕ
double [] = []
double (x ∷ xs) = x ∷ x ∷ double xs

abbrev halve : List ℕ → List ℕ
halve [] = []
halve (x ∷ []) = []
halve (x ∷ (y ∷ ys)) = x ∷ halve ys

halve-double : (p : List ℕ) → halve (double p) ≡ p
halve-double [] = refl
halve-double (x ∷ xs) = ap (λ r. x ∷ r) (halve-double xs)

abbrev direct : World
direct = record { unzip = λ b. text (halve b); stays = λ p. true; is_proxy = false; fuel = 40 }

abbrev peer : Conn
peer = record {
  bytes = [];
  draws = [];
  ending = eof;
  packets = [];
  client_address = [];
  server_address = [];
}

abbrev two_texts : List (List ℕ)
two_texts = (7 ∷ 8 ∷ []) ∷ (9 ∷ []) ∷ []

handle_delivers_example :
    (ds' : List ℕ) × (handle direct (at peer (stream double two_texts) (1 ∷ 0 ∷ 9 ∷ []))
      ≡ stop disconnect (at (record peer { packets = two_texts }) [] ds'))
handle_delivers_example =
    handle_delivers direct double two_texts (1 ∷ 0 ∷ 9 ∷ []) peer refl
      (λ p. ap text (halve-double p)) (λ p. refl) refl (omega arith)

two_delivered :
    handle direct (at peer (stream double two_texts) (1 ∷ 0 ∷ 9 ∷ []))
    ≡ stop disconnect (record peer { packets = two_texts })
unfolding handle read_size recv stream frame unpack read_sized_packet read_body on_packet serve
two_delivered = refl
