-- ===== src/Mounts/Refcount.antt =====
-- The reference count of an app is the number of its mounts that were not given back, whatever the
-- other threads and the idle cleaner do in between.
use nexpack.Prelude.{
  ℕ, ◌+◌, ◌-◌, ◌≡◌, refl, Option-cases, inl, inr, Bool, none, some, List, [], ◌∷◌, Text, text_eq,
  text_eq_iff, arith, if◌then◌else◌,
}
use nexpack.Prelude.Dict
use nexpack.Prelude.Dict.{lookup-insert, lookup-erase}
use nexpack.Mounts.{
  MountEntry, DaemonState, entry_or_insert, release, handle_unmount, Event, mount, unmount, clean,
  step, run,
}

-- The count in the table, 0 for an app without an entry.
abbrev pub refcount_of : Text → DaemonState → ℕ
refcount_of app_id s = elim (Dict.lookup app_id s.mounts) [ none ↦ 0 | some e ↦ e.refcount ]

-- How an event changes the number of leases of one app.
abbrev pub leases_after : Text → ℕ → Event → ℕ
leases_after app_id n (mount id _ _) = if text_eq id app_id then n + 1 else n
leases_after app_id n (unmount _ id _) = if text_eq id app_id then n - 1 else n
leases_after app_id n (clean _ _ _) = n

abbrev pub leases : Text → ℕ → List Event → ℕ
leases app_id n [] = n
leases app_id n (e ∷ events) = leases app_id (leases_after app_id n e) events

-- The entry that an unmount leaves in the table.
abbrev released : MountEntry → ℕ → MountEntry
released entry now = record entry { refcount = entry.refcount - 1; last_active = now }

refcount_of-release :
    (unmounts : Bool) (app_id id : Text) (entry : MountEntry) (now : ℕ) (s : DaemonState)
    → refcount_of app_id (release unmounts id entry now s).1
      ≡ (if text_eq id app_id then entry.refcount - 1 else refcount_of app_id s)
unfolding release
refcount_of-release unmounts app_id id entry now s = ground (
  arith,
  lookup-insert app_id id (released entry now) s.mounts,
  lookup-erase app_id id (Dict.insert id (released entry now) s.mounts),
)

handle_unmount_found :
    (unmounts : Bool) (id : Text) (now : ℕ) (s : DaemonState) (entry : MountEntry)
    → Dict.lookup id s.mounts ≡ some entry
    → handle_unmount unmounts id now s ≡ release unmounts id entry now s
unfolding handle_unmount
handle_unmount_found unmounts id now s entry found = rw (handle_unmount, found)

refcount_of-handle_unmount :
    (unmounts : Bool) (app_id id : Text) (now : ℕ) (s : DaemonState)
    → refcount_of app_id (handle_unmount unmounts id now s).1
      ≡ (if text_eq id app_id then refcount_of app_id s - 1 else refcount_of app_id s)
refcount_of-handle_unmount unmounts app_id id now s =
    elim (Option-cases (Dict.lookup id s.mounts)) [
      | inl absent ↦ unfold handle_unmount in ground (arith, text_eq_iff id app_id)
      | inr (entry, found) ↦ rw (handle_unmount_found unmounts id now s entry found) (
          ground (arith, refcount_of-release unmounts app_id id entry now s, text_eq_iff id app_id))
    ]

refcount_of-step :
    (app_id : Text) (s : DaemonState) (e : Event)
    → refcount_of app_id (step s e) ≡ leases_after app_id (refcount_of app_id s) e
unfolding step
refcount_of-step app_id s (mount id merged now) = ground (
  arith,
  text_eq_iff id app_id,
  lookup-insert app_id id
      (record (entry_or_insert id merged now s) {
        refcount = (entry_or_insert id merged now s).refcount + 1;
        last_active = now;
      })
      s.mounts,
)
refcount_of-step app_id s (unmount unmounts id now) =
    refcount_of-handle_unmount unmounts app_id id now s
refcount_of-step app_id s (clean unmounts id now) =
    ground (arith, text_eq_iff id app_id, lookup-erase app_id id s.mounts)

-- After any sequence of mounts, unmounts (also failing ones) and cleanings of any app, the count in
-- the table is the number of mounts of the app less the number of its unmounts, which stops at 0.
pub refcount_of-run :
    (app_id : Text) (s : DaemonState) (events : List Event)
    → refcount_of app_id (run s events) ≡ leases app_id (refcount_of app_id s) events
unfolding run
refcount_of-run app_id s [] = refl
refcount_of-run app_id s (e ∷ events) =
    rw (refcount_of-run app_id (step s e) events, refcount_of-step app_id s e)
