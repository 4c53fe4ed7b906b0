-- ===== src/Mounts.antt =====
-- nexpackd/src/main.rs: the daemon's table of mounts. The functions here are what each handler does
-- while it holds the mutex, so an event is one critical section. `now` is `Instant::now()` in
-- seconds, and whether `mount::unmount_overlay` succeeds is an argument.
pub mod Refcount
pub mod Cleaner
use nexpack.Prelude.{
  ℕ, ◌+◌, ◌-◌, Bool, true, false, ◌&&◌, Option, none, some, List, [], ◌∷◌, Text, leb, ◌==◌,
  if◌then◌else◌,
}
use nexpack.Prelude.Dict
use nexpack.Prelude.Dict.{Dict}

pub record MountEntry : Type 0 where
  pub app_id : Text
  pub rootfs : Text
  pub refcount : ℕ
  pub last_active : ℕ

-- `store` is not used after start.
pub record DaemonState : Type 0 where
  pub mounts : Dict MountEntry
  pub idle_timeout : ℕ

abbrev set_entry : DaemonState → Text → MountEntry → DaemonState
set_entry s app_id entry = record s { mounts = Dict.insert app_id entry s.mounts }

abbrev drop_entry : DaemonState → Text → DaemonState
drop_entry s app_id = record s { mounts = Dict.erase app_id s.mounts }

-- `s.mounts.entry(app_id).or_insert(..)`
unfoldable pub entry_or_insert : Text → Text → ℕ → DaemonState → MountEntry
entry_or_insert app_id merged now s = elim (Dict.lookup app_id s.mounts) [
  | some entry ↦ entry
  | none ↦ record { app_id = app_id; rootfs = merged; refcount = 0; last_active = now }
]

-- The block of `handle_mount` under the lock. (The count is a `u64`; it is taken not to overflow.)
unfoldable pub register_mount : Text → Text → ℕ → DaemonState → DaemonState
unfolding entry_or_insert
register_mount app_id merged now s =
    let entry = entry_or_insert app_id merged now s in
    set_entry s app_id (record entry { refcount = entry.refcount + 1; last_active = now })

pub data UnmountReply : Type 0 where
  unmounted refcount_decremented not_mounted unmount_failed : UnmountReply

-- The entry after `saturating_sub(1)`; it stays so when `unmount_overlay(..)?` returns early.
unfoldable pub release : Bool → Text → MountEntry → ℕ → DaemonState → UnmountReply × DaemonState
release unmounts app_id entry now s =
    let left = entry.refcount - 1 in
    let s' = set_entry s app_id (record entry { refcount = left; last_active = now }) in
    if left == 0
    then (if unmounts then (unmounted, drop_entry s' app_id) else (unmount_failed, s'))
    else (refcount_decremented, s')

unfoldable pub handle_unmount : Bool → Text → ℕ → DaemonState → UnmountReply × DaemonState
handle_unmount unmounts app_id now s = elim (Dict.lookup app_id s.mounts) [
  | none ↦ (not_mounted, s)
  | some entry ↦ release unmounts app_id entry now s
]

pub record AppInfo : Type 0 where
  pub app_id : Text
  pub rootfs : Text
  pub entrypoint : Text

list_entries : Dict MountEntry → List AppInfo
list_entries [] = []
list_entries ((id, entry) ∷ r) =
    record { app_id = id; rootfs = entry.rootfs; entrypoint = [] } ∷ list_entries r

unfoldable pub handle_list : DaemonState → List AppInfo
unfolding list_entries
handle_list s = list_entries s.mounts

-- `e.refcount == 0 && e.last_active.elapsed() >= s.idle_timeout`
unfoldable pub is_idle : ℕ → ℕ → MountEntry → Bool
is_idle now idle_timeout entry = entry.refcount == 0 && leb idle_timeout (now - entry.last_active)

-- The first lock of `idle_mount_cleaner`: the idle apps.
unfoldable pub idle_ids : ℕ → ℕ → Dict MountEntry → List Text
idle_ids now timeout [] = []
idle_ids now timeout ((id, entry) ∷ r) =
    let rest = idle_ids now timeout r in if is_idle now timeout entry then id ∷ rest else rest

unfoldable pub collect_idle : ℕ → DaemonState → List Text
unfolding idle_ids is_idle
collect_idle now s = idle_ids now s.idle_timeout s.mounts

-- The lock taken again for each of them: the entry is looked up and tested once more.
unfoldable pub clean_one : Bool → Text → ℕ → DaemonState → DaemonState
unfolding is_idle
clean_one unmounts app_id now s = elim (Dict.lookup app_id s.mounts) [
  | none ↦ s
  | some entry ↦
      if is_idle now s.idle_timeout entry then (if unmounts then drop_entry s app_id else s) else s
]

-- The loop over the idle apps; `unmounts` says which overlays can be unmounted, and `later` when the
-- lock is taken for an app.
unfoldable pub clean_all : (Text → Bool) → List Text → (Text → ℕ) → DaemonState → DaemonState
clean_all unmounts [] later s = s
clean_all unmounts (id ∷ ids) later s =
    clean_all unmounts ids later (clean_one (unmounts id) id (later id) s)

-- A turn of `idle_mount_cleaner` that nothing comes between.
unfoldable pub idle_round : (Text → Bool) → ℕ → (Text → ℕ) → DaemonState → DaemonState
unfolding clean_all collect_idle
idle_round unmounts now later s = clean_all unmounts (collect_idle now s) later s

-- What the threads do to the table, in the order in which they take the lock. The cleaner's list may
-- be out of date by the time an app of it is cleaned, so any app may be.
pub data Event : Type 0 where
  mount : Text → Text → ℕ → Event
  unmount : Bool → Text → ℕ → Event
  clean : Bool → Text → ℕ → Event

unfoldable pub step : DaemonState → Event → DaemonState
unfolding register_mount clean_one
step s (mount app_id merged now) = register_mount app_id merged now s
step s (unmount unmounts app_id now) = (handle_unmount unmounts app_id now s).1
step s (clean unmounts app_id now) = clean_one unmounts app_id now s

unfoldable pub run : DaemonState → List Event → DaemonState
run s [] = s
run s (e ∷ events) = run (step s e) events
