-- ===== src/Bridge/Wire.antt =====
-- judge/bridge/base_handler.py, class ZlibPacketHandler: how a connection cuts the bytes of its
-- socket into packets. zlib and the proxy list are arguments. A socket is the bytes that the other
-- side sends until it closes the connection or falls silent, and what each `recv` returns of them.
pub mod Proxy
pub mod Frames
pub mod Streams
pub mod Faults
use study_sys.Prelude.{
  ℕ, zero, suc, ◌+◌, ◌-◌, ◌*◌, ◌/◌, ◌%◌, Bool, true, false, ◌&&◌, ◌||◌, not, Option, none, some,
  List, [], ◌∷◌, ◌++◌, ltb, leb, ◌==◌, if◌then◌else◌, min, max, length, take, drop, get_elem?, elem,
  bytes_eq,
}

-- What the connection meets after the last byte.
pub data Ending : Type 0 where
  eof silence : Ending

-- Why `handle` ends. `struct_error`, `index_error` and `unicode_error` escape from it.
pub data Stop : Type 0 where
  disconnect timeout zlib_error struct_error index_error unicode_error : Stop

-- What `zlib.decompress(data).decode('utf-8')` gives.
pub data Unpacked : Type 0 where
  text : List ℕ → Unpacked
  bad_zlib bad_utf8 : Unpacked

-- The socket and the handler's fields. Each of `draws` is one less than what a `recv` returns when
-- there is enough; `packets` are the texts that `on_packet` has been given.
pub record Conn : Type 0 where
  pub bytes : List ℕ
  pub draws : List ℕ
  pub ending : Ending
  pub packets : List (List ℕ)
  pub client_address : List (List ℕ)
  pub server_address : List (List ℕ)

-- `endless` means that the fuel ran out.
pub data Res (A : Type 0) : Type 0 where
  ok : A → Conn → Res A
  stop : Stop → Conn → Res A
  endless : Res A

abbrev pub M : Type 0 → Type 0
M A = Conn → Res A

infixl 5 ◌>>=◌ ◌>>◌
abbrev pub ◌>>=◌ : {A B : Type 0} → M A → (A → M B) → M B
◌>>=◌ m f c = elim (m c) [ ok a d ↦ f a d | stop e d ↦ stop e d | endless ↦ endless ]

abbrev pub ◌>>◌ : {B : Type 0} → M (Unit {0}) → M B → M B
m >> k = m >>= λ _. k

abbrev pub return : {A : Type 0} → A → M A
return a c = ok a c

abbrev pub raise : {A : Type 0} → Stop → M A
raise e c = stop e c

-- What the code calls: zlib, `on_packet`, which may raise Disconnect, and the test of the client's
-- address against the proxies; and the fuel of each loop.
pub record World : Type 0 where
  pub unzip : List ℕ → Unpacked
  pub stays : List ℕ → Bool
  pub is_proxy : Bool
  pub fuel : ℕ

abbrev pub max_packet : ℕ
max_packet = 8388608

-- `struct.Struct('!I')`
unfoldable pub pack : ℕ → List ℕ
pack n = (n / 16777216 % 256) ∷ (n / 65536 % 256) ∷ (n / 256 % 256) ∷ (n % 256) ∷ []

-- `none` is the struct.error for another length.
unfoldable pub unpack : List ℕ → Option ℕ
unpack (a ∷ b ∷ c ∷ d ∷ []) = some (((a * 256 + b) * 256 + c) * 256 + d)
unpack _ = none

abbrev pub how_many : ℕ → List ℕ → ℕ
how_many n [] = n
how_many n (d ∷ ds) = min n (d + 1)

abbrev pub rest_of : List ℕ → List ℕ
rest_of [] = []
rest_of (d ∷ ds) = ds

-- `self.request.recv(n)`
unfoldable pub recv : ℕ → M (List ℕ)
recv n c = elim c.bytes [
  | [] ↦ elim c.ending [ eof ↦ ok [] c | silence ↦ stop timeout c ]
  | x ∷ xs ↦
      let k = how_many n c.draws in
      ok (take k c.bytes) (record c { bytes = drop k c.bytes; draws = rest_of c.draws })
]

-- `read_size`, with the bytes that are there.
unfoldable pub read_size : ℕ → List ℕ → M ℕ
read_size zero buffer = λ c. endless
read_size (suc fuel) buffer = elim (leb 4 (length buffer)) [
  | true ↦ elim (unpack buffer) [ some n ↦ return n | none ↦ raise struct_error ]
  | false ↦ recv (4 - length buffer) >>= λ got. elim got [
    | [] ↦ raise disconnect
    | x ∷ xs ↦ read_size fuel (buffer ++ (x ∷ xs))
  ]
]

-- The loop of `read_sized_packet`: it does not test for the end of the stream.
unfoldable pub read_body : ℕ → ℕ → List ℕ → M (List ℕ)
read_body zero remainder buffer = λ c. endless
read_body (suc fuel) remainder buffer = elim (remainder == 0) [
  | true ↦ return buffer
  | false ↦ recv remainder >>= λ got. read_body fuel (remainder - length got) (buffer ++ got)
]

abbrev pub deliver : List ℕ → M (Unit {0})
deliver p c = ok tt (record c { packets = c.packets ++ (p ∷ []) })

-- `_on_packet`
unfoldable pub on_packet : World → List ℕ → M (Unit {0})
on_packet w body = elim (w.unzip body) [
  | bad_zlib ↦ raise zlib_error
  | bad_utf8 ↦ raise unicode_error
  | text p ↦ deliver p >> (if w.stays p then return tt else raise disconnect)
]

-- `initial` is no longer than `size` where the code calls this.
unfoldable pub read_sized_packet : World → ℕ → List ℕ → M (Unit {0})
read_sized_packet w size initial =
    if ltb max_packet size
    then raise disconnect
    else read_body w.fuel (size - length initial) initial >>= on_packet w

-- The loop at the end of `handle`, which only an exception leaves.
unfoldable pub serve : ℕ → World → M (Unit {0})
serve zero w = λ c. endless
serve (suc fuel) w = read_size w.fuel [] >>= λ n. read_sized_packet w n [] >> serve fuel w
