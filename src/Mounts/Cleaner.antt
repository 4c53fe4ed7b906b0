-- ===== src/Mounts/Cleaner.antt =====
-- The idle cleaner removes the idle mounts and no others.
use nexpack.Prelude.{
  ℕ, ◌-◌, ◌≤◌, ◌≡◌, ◌∙◌, ◌⊎◌, inl, inr, refl, Bool, true, false, Bool-cases, leb, ◌==◌, ◌&&◌, ◌||◌,
  Option, none, some, List, [], ◌∷◌, Text, text_eq, text_eq_iff, arith, if◌then◌else◌,
}
use nexpack.Prelude.Dict
use nexpack.Prelude.Dict.{lookup-insert, lookup-erase}
use nexpack.Mounts.{
  MountEntry, DaemonState, is_idle, idle_ids, collect_idle, clean_one, clean_all, idle_round,
}

abbrev member : Text → List Text → Bool
member app_id [] = false
member app_id (id ∷ ids) = text_eq id app_id || member app_id ids

-- What a cleaning at this time leaves of an entry: nothing of one without leases that was not used
-- for the timeout, if its overlay can be unmounted.
abbrev pub kept : Bool → ℕ → ℕ → Option MountEntry → Option MountEntry
kept unmounts now timeout none = none
kept unmounts now timeout (some e) =
    if e.refcount == 0 && (leb timeout (now - e.last_active) && unmounts) then none else some e

lookup-clean_one :
    (unmounts : Bool) (app_id id : Text) (now : ℕ) (s : DaemonState)
    → Dict.lookup app_id (clean_one unmounts id now s).mounts ≡ (
        if text_eq id app_id
        then kept unmounts now s.idle_timeout (Dict.lookup app_id s.mounts)
        else Dict.lookup app_id s.mounts)
unfolding clean_one is_idle
lookup-clean_one unmounts app_id id now s =
    ground (arith, text_eq_iff id app_id, lookup-erase app_id id s.mounts)

timeout-clean_one :
    (unmounts : Bool) (id : Text) (now : ℕ) (s : DaemonState)
    → (clean_one unmounts id now s).idle_timeout ≡ s.idle_timeout
unfolding clean_one
timeout-clean_one unmounts id now s = ground arith

kept-kept :
    (unmounts : Bool) (now timeout : ℕ) (o : Option MountEntry)
    → kept unmounts now timeout (kept unmounts now timeout o) ≡ kept unmounts now timeout o
kept-kept unmounts now timeout o = ground arith

lookup-clean_all :
    (unmounts : Text → Bool) (app_id : Text) (ids : List Text) (later : Text → ℕ) (s : DaemonState)
    → Dict.lookup app_id (clean_all unmounts ids later s).mounts ≡ (
        if member app_id ids
        then kept (unmounts app_id) (later app_id) s.idle_timeout (Dict.lookup app_id s.mounts)
        else Dict.lookup app_id s.mounts)
unfolding clean_all
lookup-clean_all unmounts app_id [] later s = refl
lookup-clean_all unmounts app_id (id ∷ ids) later s = ground (
  arith,
  text_eq_iff id app_id,
  lookup-clean_all unmounts app_id ids later (clean_one (unmounts id) id (later id) s),
  lookup-clean_one (unmounts id) app_id id (later id) s,
  timeout-clean_one (unmounts id) id (later id) s,
  kept-kept (unmounts app_id) (later app_id) s.idle_timeout (Dict.lookup app_id s.mounts),
)

-- An app whose entry is idle is collected.
collected :
    (unmounts : Bool) (app_id : Text) (now timeout : ℕ) (mounts : Dict.Dict MountEntry)
    (e : MountEntry)
    → Dict.lookup app_id mounts ≡ some e
    → kept unmounts now timeout (some e) ≡ none
    → member app_id (idle_ids now timeout mounts) ≡ true
unfolding idle_ids is_idle Dict.lookup
collected unmounts app_id now timeout [] e at idle = absurd cc
collected unmounts app_id now timeout ((id, f) ∷ r) e at idle =
    ground (arith, collected unmounts app_id now timeout r e)

-- What is idle stays idle.
kept_later :
    (unmounts : Bool) (now later timeout : ℕ) (o : Option MountEntry)
    → now ≤ later
    → kept unmounts now timeout o ≡ none
    → kept unmounts later timeout o ≡ none
kept_later unmounts now later timeout none h gone = refl
kept_later unmounts now later timeout (some e) h gone = ground arith

-- No entry of an app that is not collected is idle.
none_listed :
    (unmounts : Bool) (app_id : Text) (now : ℕ) (s : DaemonState) (o : Option MountEntry)
    → Dict.lookup app_id s.mounts ≡ o
    → kept unmounts now s.idle_timeout o ≡ none
    → member app_id (idle_ids now s.idle_timeout s.mounts) ≡ false
    → o ≡ none
none_listed unmounts app_id now s none at idle unlisted = refl
none_listed unmounts app_id now s (some e) at idle unlisted =
    let listed = collected unmounts app_id now s.idle_timeout s.mounts e at idle in absurd cc

-- A round of the cleaner, where the lock is taken for each app no earlier than for the list: an entry
-- without leases, unused for the timeout when the list is made, whose overlay can be unmounted, is
-- gone. Any entry is as it was, or was without leases and unused for the timeout when its app's turn
-- came, and could be unmounted, and is gone.
pub lookup-idle_round :
    (unmounts : Text → Bool) (app_id : Text) (now : ℕ) (later : Text → ℕ) (s : DaemonState)
    → now ≤ later app_id
    → (kept (unmounts app_id) now s.idle_timeout (Dict.lookup app_id s.mounts) ≡ none
        → Dict.lookup app_id (idle_round unmounts now later s).mounts ≡ none)
      × ((Dict.lookup app_id (idle_round unmounts now later s).mounts ≡ Dict.lookup app_id s.mounts)
          ⊎ (Dict.lookup app_id (idle_round unmounts now later s).mounts
              ≡ kept (unmounts app_id) (later app_id) s.idle_timeout (Dict.lookup app_id s.mounts)))
unfolding idle_round collect_idle
lookup-idle_round unmounts app_id now later s h =
    let ids = collect_idle now s in
    let o = Dict.lookup app_id s.mounts in
    let after = lookup-clean_all unmounts app_id ids later s in
    elim (Bool-cases (member app_id ids)) [
      | inl listed ↦
          let cleaned = after ∙ (rw listed refl) in
          (
            λ idle.
                cleaned ∙ kept_later (unmounts app_id) now (later app_id) s.idle_timeout o h idle,
            inr cleaned,
          )
      | inr unlisted ↦
          let same = after ∙ (rw unlisted refl) in
          (λ idle. same ∙ none_listed (unmounts app_id) app_id now s o refl idle unlisted, inl same)
    ]
