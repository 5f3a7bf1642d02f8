-- ===== src/Bridge/Handler.antt =====
-- judge/bridge/judge_handler.py, `JudgeHandler`: how a judge connects, says who it is, changes its
-- problems and leaves, over the list of judges and the tables `Judge` and `RuntimeVersion`. That a
-- connection has packets sent is not modelled; a version is the list of its parts.
pub mod Leaving
pub mod Handshake
pub mod Departure
pub mod Runtimes
use study_sys.Prelude.{
  ℕ, ◌+◌, Bool, true, false, ◌&&◌, ◌||◌, not, Option, none, some, List, [], ◌∷◌, ◌++◌, String,
  str_eq, ◌==◌, if◌then◌else◌, keep, elem_text, map,
}
use study_sys.Grading.{ie}
use study_sys.Store.{Status, Submission, Store, update_submission}
use study_sys.Bridge.Judge.{Judge, is_working}
use study_sys.Bridge.JudgeList.{
  JudgeList, World, Exception, find_judge, update_judge, register, remove, update_problems,
}

-- The fields of a row of `Judge` that the handler reads and writes.
pub record JudgeRow : Type 0 where
  pub id : ℕ
  pub name : String
  pub auth_key : String
  pub is_blocked : Bool
  pub is_disabled : Bool
  pub online : Bool
  pub problems : List String
  pub runtimes : List String
  pub load : ℕ

pub record RuntimeVersion : Type 0 where
  pub judge : ℕ
  pub language : String
  pub name : String
  pub version : List ℕ
  pub priority : ℕ

-- The process of the bridge with the tables; `problem_codes` and `language_keys` are the codes of
-- the problems and the keys of the languages that the site has, and `is_ascii` says that a string is
-- ASCII, as `hmac.compare_digest` asks of strings.
pub record Host : Type 0 where
  pub judges : JudgeList
  pub store : Store
  pub rows : List JudgeRow
  pub versions : List RuntimeVersion
  pub problem_codes : List String
  pub language_keys : List String
  pub is_ascii : String → Bool

-- A handler. `judge` is the id of the row; its name, problems and languages are in the list of
-- judges.
pub record Connection : Type 0 where
  pub oid : ℕ
  pub judge : Option ℕ
  pub timeout : ℕ
  pub is_closed : Bool
  pub host : Host

-- What a method leaves, and whether an exception escapes it.
abbrev pub Ended : Type 0
Ended = Connection × Bool

abbrev pub Executors : Type 0
Executors = List (String × List (String × List ℕ))

-- What a handshake says; a key that the packet lacks is none.
pub record HandshakePacket : Type 0 where
  pub id : Option String
  pub key : Option String
  pub problems : Option (List String)
  pub executors : Option Executors

-- `Judge.objects.get(name=name)`
unfoldable pub find_named : String → List JudgeRow → Option JudgeRow
find_named name [] = none
find_named name (r ∷ rs) = if str_eq r.name name then some r else find_named name rs

abbrev pub admits : (String → Bool) → String → Option JudgeRow → Option Bool
admits is_ascii key none = some false
admits is_ascii key (some r) =
    if is_ascii r.auth_key && is_ascii key
    then some (str_eq r.auth_key key && not r.is_blocked)
    else none

-- `_authenticate`; none is the TypeError of `hmac.compare_digest`.
unfoldable pub authenticate : (String → Bool) → String → String → List JudgeRow → Option Bool
unfolding find_named
authenticate is_ascii id key rows = admits is_ascii key (find_named id rows)

-- `on_connect`
unfoldable pub on_connect : Connection → Connection
on_connect c = record c { timeout = 15 }

unfoldable pub close : Connection → Connection
close c = record c { is_closed = true }

-- The attributes that the packet sets on the handler object.
abbrev pub introduce : String → List String → Executors → Judge → Judge
introduce name problems executors j = record j {
  name = some name;
  problems = problems;
  executors = map (λ e. e.0) executors;
}

abbrev pub set_problems : List String → Judge → Judge
set_problems problems j = record j { problems = problems }

abbrev pub disable : Bool → Judge → Judge
disable b j = record j { is_disabled = b }

abbrev pub change_judge : (Judge → Judge) → Connection → Connection
change_judge f c = record c {
  host = record c.host {
    judges = record c.host.judges { handlers = update_judge c.oid f c.host.judges.handlers };
  };
}

unfoldable pub update_judge_row : ℕ → (JudgeRow → JudgeRow) → List JudgeRow → List JudgeRow
update_judge_row id f [] = []
update_judge_row id f (r ∷ rs) = (if r.id == id then f r else r) ∷ update_judge_row id f rs

-- `enumerate(self.executors[lang.key])`, and the loop over `judge.runtimes.all()`.
abbrev pub versions_from : ℕ → ℕ → String → List (String × List ℕ) → List RuntimeVersion
versions_from judge idx language [] = []
versions_from judge idx language ((name, version) ∷ rest) =
    record { judge = judge; language = language; name = name; version = version; priority = idx }
    ∷ versions_from judge (idx + 1) language rest

abbrev pub new_versions : ℕ → List String → Executors → List RuntimeVersion
new_versions judge keys [] = []
new_versions judge keys ((language, names) ∷ rest) =
    let others = new_versions judge keys rest in
    if elem_text language keys then versions_from judge 0 language names ++ others else others

abbrev pub among : List String → List String → List String
among known xs = keep (λ x. elem_text x known) xs

-- The row after `judge.save()`.
abbrev pub go_online : Host → List String → Executors → JudgeRow → JudgeRow
go_online h problems executors r = record r {
  online = true;
  problems = among h.problem_codes problems;
  runtimes = among h.language_keys (map (λ e. e.0) executors);
}

abbrev pub drop_versions : ℕ → List RuntimeVersion → List RuntimeVersion
drop_versions judge vs = keep (λ v. not (v.judge == judge)) vs

-- `_connected` when its query has found the row.
abbrev pub connect_row : JudgeRow → List String → Executors → Connection → Connection
connect_row r problems executors c =
    let h = c.host in
    change_judge (disable r.is_disabled) (record c {
      judge = some r.id;
      host = record h {
        rows = update_judge_row r.id (go_online h problems executors) h.rows;
        versions = drop_versions r.id h.versions ++ new_versions r.id h.language_keys executors;
      };
    })

unfoldable pub connected : String → List String → Executors → Connection → Ended
unfolding find_named update_judge_row update_judge
connected name problems executors c = elim (find_named name c.host.rows) [
  | none ↦ (c, true)
  | some r ↦ (connect_row r problems executors c, false)
]

abbrev pub with_judges : JudgeList → Connection → Connection
with_judges t c = record c { host = record c.host { judges = t } }

-- `on_handshake` after the judge is authenticated.
unfoldable pub admit : World → String → List String → Executors → Connection → Ended
unfolding register update_judge connected
admit world name problems executors c =
    let d = change_judge (introduce name problems executors) (record c { timeout = 60 }) in
    let (t, failure) = register world c.oid d.host.judges in
    elim failure [
      | some e ↦ (with_judges t d, true)
      | none ↦ connected name problems executors (with_judges t d)
    ]

-- What a packet without problems or executors, which raise a KeyError, leaves of the handler.
abbrev pub missing : Option (List String) → Connection → Ended
missing none c = (record c { timeout = 60 }, true)
missing (some problems) c = (change_judge (set_problems problems) (record c { timeout = 60 }), true)

unfoldable pub on_handshake : World → HandshakePacket → Connection → Ended
unfolding admit authenticate close update_judge
on_handshake world p c = elim (p.id) [
  | none ↦ (close c, false)
  | some name ↦ elim (p.key) [
    | none ↦ (close c, false)
    | some key ↦ elim (authenticate c.host.is_ascii name key c.host.rows) [
      | none ↦ (c, true)
      | some false ↦ (close c, false)
      | some true ↦ elim (p.problems) [
        | none ↦ missing none c
        | some problems ↦ elim (p.executors) [
          | none ↦ missing (some problems) c
          | some executors ↦ admit world name problems executors c
        ]
      ]
    ]
  ]
]
