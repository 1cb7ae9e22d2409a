-- ===== src/Worker/Reconcile.antt =====
-- Recordings found in a store: `_reconcile_agent` and `_register` of
-- src/voiceobs/worker/reconcile.py. The tables are the lists of their rows.
pub mod Again
use actioneer_pulse.Common.{
  Bool, true, false, String, Option, none, some, List, [], ◌∷◌, ◌++◌, ◌&&◌, any, elem, opt_eq,
  str_eq, ltb, if◌then◌else◌, ℕ, suc,
}
use actioneer_pulse.Backfill.Discover.{Descriptor, placed}
use actioneer_pulse.Backfill.Media.{Media}

-- The columns of a call that a registration reads or writes.
pub record Call : Type 0 where
  pub id : String
  pub agent_id : Option String
  pub external_call_id : String
  pub spans_complete : Bool
  pub media_ready : Bool
  pub status : String

-- The tables of calls, media and tombstones.
pub record Tables : Type 0 where
  pub calls : List Call
  pub media : List Media
  pub tombstones : List String

unfoldable pub find_call : String → String → List Call → Option Call
find_call agent call_id [] = none
find_call agent call_id (c ∷ calls) =
    if opt_eq c.agent_id (some agent) && str_eq c.external_call_id call_id
    then some c
    else find_call agent call_id calls

unfoldable pub has_media : String → String → List Media → Bool
has_media id kind media = any (λ m. str_eq m.call_id id && str_eq m.kind kind) media

-- The assignments to the call's row.
unfoldable pub mark_ready : String → List Call → List Call
mark_ready id [] = []
mark_ready id (c ∷ calls) =
    (if str_eq c.id id
      then record c {
        media_ready = true;
        status = if c.spans_complete then "ingested" else c.status;
      }
      else c)
    ∷ mark_ready id calls

-- `_register`
unfoldable pub register : String → String → String → String → Tables → Bool × Tables
register agent call_id uri kind db = elim (find_call agent call_id db.calls) [
  | none ↦ (false, db)
  | some c ↦
      if elem call_id db.tombstones
      then (false, db)
      else if has_media c.id kind db.media
      then (false, db)
      else (
        true,
        record {
          calls = mark_ready c.id db.calls;
          media = db.media ++ record { call_id = c.id; kind = kind; uri = uri } ∷ [];
          tombstones = db.tombstones;
        },
      )
]

-- An object of the listing, by its uri and the time of its last change.
abbrev pub Listed : Type 0
Listed = String × ℕ

-- One round of the loop, with the count.
unfoldable pub reconcile_object : String → Descriptor → ℕ → Listed → ℕ × Tables → ℕ × Tables
reconcile_object agent d cutoff (uri, modified) (n, db) =
    if ltb cutoff modified then (n, db) else elim (placed d uri) [
      | none ↦ (n, db)
      | some (call_id, kind) ↦
          let r = register agent call_id uri kind db in (if r.0 then suc n else n, r.1)
    ]

unfoldable pub reconcile_from : String → Descriptor → ℕ → List Listed → ℕ × Tables → ℕ × Tables
reconcile_from agent d cutoff [] s = s
reconcile_from agent d cutoff (o ∷ objects) s =
    reconcile_from agent d cutoff objects (reconcile_object agent d cutoff o s)

-- `_reconcile_agent`: a listing that fails registers nothing.
unfoldable pub reconcile_agent :
    String → Descriptor → ℕ → Option (List Listed) → Tables → ℕ × Tables
reconcile_agent agent d cutoff none db = (0, db)
reconcile_agent agent d cutoff (some objects) db = reconcile_from agent d cutoff objects (0, db)
