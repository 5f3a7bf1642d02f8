-- ===== src/Bridge/Handler/Handshake.antt =====
-- What a handshake lets through, and what it does not look at.
use study_sys.Prelude.{
  sym, ◌∙◌, ℕ, Bool, true, false, ◌&&◌, Option, none, some, List, [], ◌∷◌, ◌≡◌, ◌⊎◌, inl, inr,
  String, refl, arith, str_eq, ap, map, Option-cases,
}
use mathlib.Core.Option.{map as map_option}
use study_sys.Bridge.JudgeList.{World, register}
use study_sys.Bridge.Handler.{
  JudgeList, JudgeRow, Connection, HandshakePacket, Executors, find_named, admits, authenticate,
  close, connected, admit, on_handshake, change_judge, introduce,
}

-- The packet has the key of a row that is not blocked.
pub IsAdmitted : HandshakePacket → Connection → Type 0
IsAdmitted p c =
    (name : String) × (key : String) × (r : JudgeRow) × (p.id ≡ some name)
    × (p.key ≡ some key)
    × (find_named name c.host.rows ≡ some r)
    × (str_eq r.auth_key key ≡ true)
    × (r.is_blocked ≡ false)

-- The packet names a row, and the key of the packet or that of the row is not ASCII.
pub IsUnreadable : HandshakePacket → Connection → Type 0
IsUnreadable p c =
    (name : String) × (key : String) × (r : JudgeRow) × (p.id ≡ some name)
    × (p.key ≡ some key)
    × (find_named name c.host.rows ≡ some r)
    × ((c.host.is_ascii r.auth_key && c.host.is_ascii key) ≡ false)

admitted_row :
    (is_ascii : String → Bool) (name key : String) (rows : List JudgeRow)
    → authenticate is_ascii name key rows ≡ some true
    → (r : JudgeRow) × (find_named name rows ≡ some r)
      × (str_eq r.auth_key key ≡ true)
      × (r.is_blocked ≡ false)
unfolding authenticate
admitted_row is_ascii name key rows h = elim (Option-cases (find_named name rows)) [
  | inl absent ↦ absurd (ground (arith, h, absent))
  | inr (r, found) ↦
      let passed : admits is_ascii key (some r) ≡ some true = rw (found, authenticate) at h in
      (r, found, ground (arith, passed), ground (arith, passed))
]

unreadable_row :
    (is_ascii : String → Bool) (name key : String) (rows : List JudgeRow)
    → authenticate is_ascii name key rows ≡ none
    → (r : JudgeRow) × (find_named name rows ≡ some r)
      × ((is_ascii r.auth_key && is_ascii key) ≡ false)
unfolding authenticate
unreadable_row is_ascii name key rows h = elim (Option-cases (find_named name rows)) [
  | inl absent ↦ absurd (ground (arith, h, absent))
  | inr (r, found) ↦
      let raised : admits is_ascii key (some r) ≡ none = rw (found, authenticate) at h in
      (r, found, ground (arith, raised))
]

-- The three outcomes of `_authenticate`.
authenticate-cases :
    (is_ascii : String → Bool) (name key : String) (rows : List JudgeRow)
    → let a = authenticate is_ascii name key rows in (a ≡ none) ⊎ (a ≡ some false) ⊎ (a ≡ some true)
authenticate-cases is_ascii name key rows =
    elim (Option-cases (authenticate is_ascii name key rows)) [
      | inl raised ↦ inl raised
      | inr (true, passed) ↦ inr (inr passed)
      | inr (false, refused) ↦ inr (inl refused)
    ]

-- A handshake closes the connection and changes nothing else, or raises an exception that leaves
-- the connection open and everything as it was, as the key in the packet or in the table is not
-- ASCII, or its packet has the name and the key of a judge in the table that is not blocked.
pub on_handshake-IsAdmitted :
    (world : World) (p : HandshakePacket) (c : Connection)
    → (on_handshake world p c ≡ (record c { is_closed = true }, false))
      ⊎ ((on_handshake world p c ≡ (c, true)) × IsUnreadable p c)
      ⊎ IsAdmitted p c
unfolding on_handshake close IsAdmitted IsUnreadable
on_handshake-IsAdmitted world p c = elim (Option-cases (p.id)) [
  | inl absent ↦ inl (rw (absent, on_handshake) refl)
  | inr (name, named) ↦ elim (Option-cases (p.key)) [
    | inl absent ↦ inl (rw (named, absent, on_handshake) refl)
    | inr (key, keyed) ↦ elim (authenticate-cases c.host.is_ascii name key c.host.rows) [
      | inl raised ↦
          let (r, found, odd) = unreadable_row c.host.is_ascii name key c.host.rows raised in
          inr (
            inl (
              rw (named, keyed, raised, on_handshake) refl,
              (name, key, r, named, keyed, found, odd),
            ))
      | inr (inl refused) ↦ inl (rw (named, keyed, refused, on_handshake) refl)
      | inr (inr passed) ↦
          let (r, found, right, unblocked) =
            admitted_row c.host.is_ascii name key c.host.rows passed in
          inr (inr (name, key, r, named, keyed, found, right, unblocked))
    ]
  ]
]

-- The submissions that are being graded.
abbrev pub graded_by : Connection → List (ℕ × ℕ)
graded_by c = c.host.judges.submission_map

connected-graded_by :
    (name : String) (problems : List String) (executors : Executors) (c : Connection)
    → graded_by (connected name problems executors c).0 ≡ graded_by c
unfolding connected
connected-graded_by name problems executors c = elim (Option-cases (find_named name c.host.rows)) [
  | inl absent ↦ rw (absent, connected) refl
  | inr (r, found) ↦ rw (found, connected) refl
]

-- The list of judges in which the handler knows its name, its problems and its languages.
abbrev introduced : String → List String → Executors → Connection → JudgeList
introduced name problems executors c =
    (change_judge (introduce name problems executors) c).host.judges

admit-graded_by :
    (world : World) (name : String) (problems : List String) (executors : Executors)
    (c : Connection)
    → graded_by (admit world name problems executors c).0
      ≡ (register world c.oid (introduced name problems executors c)).0.submission_map
unfolding admit
admit-graded_by world name problems executors c =
    elim (Option-cases ((register world c.oid (introduced name problems executors c)).1)) [
      | inl done ↦ rw (done, admit) (connected-graded_by name problems executors _)
      | inr (e, failed) ↦ rw (failed, admit) refl
    ]

abbrev pub disable_row : Bool → JudgeRow → JudgeRow
disable_row b r = record r { is_disabled = b }

-- The tables in which every judge is disabled, or none is.
abbrev pub disable_rows : Bool → Connection → Connection
disable_rows b c = record c { host = record c.host { rows = map (disable_row b) c.host.rows } }

find_named-disable_row :
    (b : Bool) (name : String) (rows : List JudgeRow)
    → find_named name (map (disable_row b) rows) ≡ map_option (disable_row b) (find_named name rows)
unfolding find_named
find_named-disable_row b name [] = refl
find_named-disable_row b name (r ∷ rows) = ground (arith, find_named-disable_row b name rows)

admits-disable_row :
    (is_ascii : String → Bool) (b : Bool) (key : String) (o : Option JudgeRow)
    → admits is_ascii key (map_option (disable_row b) o) ≡ admits is_ascii key o
admits-disable_row is_ascii b key none = refl
admits-disable_row is_ascii b key (some r) = refl

authenticate-disable_rows :
    (is_ascii : String → Bool) (b : Bool) (name key : String) (rows : List JudgeRow)
    → authenticate is_ascii name key (map (disable_row b) rows)
      ≡ authenticate is_ascii name key rows
unfolding authenticate
authenticate-disable_rows is_ascii b name key rows =
    ap (admits is_ascii key) (find_named-disable_row b name rows)
    ∙ admits-disable_row is_ascii b key (find_named name rows)

module _ (world : World) (b : Bool) (c : Connection) where
  SameGraded : HandshakePacket → Type 0
  SameGraded p =
      graded_by (on_handshake world p (disable_rows b c)).0 ≡ graded_by (on_handshake world p c).0

  admitted-SameGraded :
      (name key : String) (problems : Option (List String)) (executors : Option Executors)
      → authenticate c.host.is_ascii name key c.host.rows ≡ some true
      → authenticate c.host.is_ascii name key (map (disable_row b) c.host.rows) ≡ some true
      → SameGraded
          record { id = some name; key = some key; problems = problems; executors = executors }
  unfolding SameGraded on_handshake
  admitted-SameGraded name key none executors h k = rw (h, k, on_handshake) refl
  admitted-SameGraded name key (some problems) none h k = rw (h, k, on_handshake) refl
  admitted-SameGraded name key (some problems) (some executors) h k =
      rw (h, k, on_handshake)
        (admit-graded_by world name problems executors (disable_rows b c)
          ∙ sym (admit-graded_by world name problems executors c))

  handshake-SameGraded :
      (id key : Option String) (problems : Option (List String)) (executors : Option Executors)
      → SameGraded record { id = id; key = key; problems = problems; executors = executors }
  unfolding SameGraded on_handshake
  handshake-SameGraded none key problems executors = refl
  handshake-SameGraded (some name) none problems executors = refl
  handshake-SameGraded (some name) (some key) problems executors =
      let same = authenticate-disable_rows c.host.is_ascii b name key c.host.rows in
      elim (authenticate-cases c.host.is_ascii name key c.host.rows) [
        | inl raised ↦ rw (raised, same ∙ raised, on_handshake) refl
        | inr (inl refused) ↦ rw (refused, same ∙ refused, on_handshake) refl
        | inr (inr passed) ↦ admitted-SameGraded name key problems executors passed (same ∙ passed)
      ]

-- Whether the table says that the judge is disabled makes no difference to the submissions that are
-- being graded after its handshake: `register` hands it one before `_connected` reads the row.
pub on_handshake-disable_rows :
    (world : World) (p : HandshakePacket) (b : Bool) (c : Connection)
    → graded_by (on_handshake world p (disable_rows b c)).0 ≡ graded_by (on_handshake world p c).0
unfolding SameGraded
on_handshake-disable_rows world p b c =
    handshake-SameGraded world b c p.id p.key p.problems p.executors
