-- ===== src/Bridge/Wire/Proxy.antt =====
-- judge/bridge/base_handler.py: the header of the PROXY protocol, and `handle` itself.
use study_sys.Prelude.{
  ℕ, zero, suc, Bool, true, false, ◌&&◌, ◌||◌, none, some, List, [], ◌∷◌, ◌++◌, ltb, leb, ◌==◌,
  if◌then◌else◌, length, take, drop, get_elem?, bytes_eq,
}
use study_sys.Bridge.Wire.{
  Stop, disconnect, timeout, zlib_error, struct_error, index_error, ok, endless, M, ◌>>=◌, ◌>>◌,
  return, raise, World, pack, unpack, recv, read_size, read_sized_packet, on_packet, serve,
}

-- `b'\r\n' in buffer`
unfoldable pub has_crlf : List ℕ → Bool
has_crlf [] = false
has_crlf (x ∷ []) = false
has_crlf (x ∷ (y ∷ ys)) = x == 13 && y == 10 || has_crlf (y ∷ ys)

-- `read_proxy_header`
unfoldable pub read_proxy_header : ℕ → List ℕ → M (List ℕ)
unfolding has_crlf
read_proxy_header zero buffer = λ c. endless
read_proxy_header (suc fuel) buffer = elim (has_crlf buffer) [
  | true ↦ return buffer
  | false ↦ elim (ltb 107 (length buffer)) [
    | true ↦ raise disconnect
    | false ↦ recv 107 >>= λ got. elim got [
      | [] ↦ raise disconnect
      | x ∷ xs ↦ read_proxy_header fuel (buffer ++ (x ∷ xs))
    ]
  ]
]

-- `partition(b'\r\n')`, without the separator: what stands before it and after it.
unfoldable pub partition : List ℕ → List ℕ × List ℕ
partition [] = ([], [])
partition (x ∷ []) = (x ∷ [], [])
partition (x ∷ (y ∷ ys)) =
    let (front, back) = partition (y ∷ ys) in
    if x == 13 && y == 10 then ([], ys) else (x ∷ front, back)

-- The white space of `bytes.split()`.
abbrev pub is_space : ℕ → Bool
is_space b = b == 32 || leb 9 b && leb b 13

abbrev pub add_word : List ℕ → List (List ℕ) → List (List ℕ)
add_word [] ws = ws
add_word (x ∷ xs) ws = (x ∷ xs) ∷ ws

-- `line.split()`, with the word that is being read.
unfoldable pub words_from : List ℕ → List ℕ → List (List ℕ)
words_from word [] = add_word word []
words_from word (b ∷ bs) =
    if is_space b then add_word word (words_from [] bs) else words_from (word ++ (b ∷ [])) bs

-- An index out of range is an IndexError.
unfoldable pub word_at : List (List ℕ) → ℕ → M (List ℕ)
word_at ws i = elim (get_elem? ws i) [ some w ↦ return w | none ↦ raise index_error ]

unfoldable pub set_addresses : List (List ℕ) → M (Unit {0})
unfolding word_at
set_addresses ws = do
  a ← word_at ws 2
  p ← word_at ws 4
  b ← word_at ws 3
  q ← word_at ws 5
  λ c. ok tt (record c { client_address = a ∷ p ∷ []; server_address = b ∷ q ∷ [] })

-- `b'TCP4'`, `b'TCP6'`, `b'UNKNOWN'` and `b'PROX'`
abbrev pub tcp4 : List ℕ
tcp4 = b'T' ∷ b'C' ∷ b'P' ∷ b'4' ∷ []

abbrev pub tcp6 : List ℕ
tcp6 = b'T' ∷ b'C' ∷ b'P' ∷ b'6' ∷ []

abbrev pub unknown : List ℕ
unknown = b'U' ∷ b'N' ∷ b'K' ∷ b'N' ∷ b'O' ∷ b'W' ∷ b'N' ∷ []

abbrev pub prox : List ℕ
prox = b'P' ∷ b'R' ∷ b'O' ∷ b'X' ∷ []

-- `parse_proxy_protocol`, on the words of the line. Of an address over TCP6 the two last parts,
-- which are 0, are left out.
unfoldable pub parse_words : List (List ℕ) → M (Unit {0})
parse_words (first ∷ (kind ∷ rest)) =
    let ws = first ∷ (kind ∷ rest) in
    if bytes_eq kind tcp4
    then (if length ws == 6 then set_addresses ws else raise disconnect)
    else if bytes_eq kind tcp6
    then set_addresses ws
    else if bytes_eq kind unknown
    then return tt
    else raise disconnect
parse_words _ = raise disconnect

unfoldable pub parse_proxy_protocol : List ℕ → M (Unit {0})
parse_proxy_protocol line = parse_words (words_from [] line)

-- One packet whose size has been read, from the bytes that came with the header. The answer is the
-- remainder for the next turn; it is empty after a `break`.
unfoldable pub take_packet : World → List ℕ → M (List ℕ)
take_packet w remainder = elim (unpack (take 4 remainder)) [
  | none ↦ raise struct_error
  | some size ↦
      let body = drop 4 remainder in
      if leb (length body) size
      then (read_sized_packet w size body >> return [])
      else (on_packet w (take size body) >> return (drop size body))
]

-- The loop `while remainder`. The inner loop reads one packet if the remainder is shorter than a
-- size; its `break` leaves only itself, so that the code goes on with the same remainder.
unfoldable pub read_remainder : ℕ → World → List ℕ → M (Unit {0})
read_remainder zero w remainder = λ c. endless
read_remainder (suc fuel) w [] = return tt
read_remainder (suc fuel) w (x ∷ xs) =
    let short = read_size w.fuel (x ∷ xs) >>= λ n. read_sized_packet w n [] in
    (if ltb (length (x ∷ xs)) 4 then short else return tt)
    >> (take_packet w (x ∷ xs) >>= read_remainder fuel w)

-- `handle` up to its `except` clauses. `_initial_tag` is the first four bytes.
unfoldable pub handle : World → M (Unit {0})
handle w = do
  tag ← read_size w.fuel []
  if w.is_proxy && bytes_eq (pack tag) prox
      then (do
        buffer ← read_proxy_header w.fuel (pack tag)
        parse_proxy_protocol (partition buffer).0
        read_remainder w.fuel w (partition buffer).1)
      else read_sized_packet w tag []
  serve w.fuel w

-- The `except` clauses: which exceptions `handle` does not let through.
unfoldable pub is_caught : Stop → Bool
is_caught disconnect = true
is_caught timeout = true
is_caught zlib_error = true
is_caught _ = false

-- `send`, for a text that zlib has compressed.
unfoldable pub frame : List ℕ → List ℕ
unfolding pack
frame compressed = pack (length compressed) ++ compressed
