-- ===== src/MultiLoopback/State.antt =====
-- The state of multi_loopback.c and what its operations share: the paths on the devices, the
-- requests that go to the pool of threads, and the tables of open files.
use safefs.Prelude.{
  ℕ, zero, suc, ◌+◌, Bool, false, Option, none, some, ℤ, pos, neg_one, eq_ℤ, ltb, ◌==◌,
  if◌then◌else◌, List, [], ◌∷◌, ◌++◌, map, length, get_elem?, set, Action, pure, lift, ◌>>=◌,
}
use safefs.Layers.{FilePath, MultiDriver}
use safefs.MultiLoopback.Posix.{Posix}
use safefs.MultiLoopback.Requests.{
  DriverMode, OpInfo, Reply, Outcome, moves_data, threads_func, wait_for_all_requests,
}

-- `struct loopback_dirp`, with the name of the entry that was read and not yet passed on.
pub record LoopbackDirp : Type 0 where
  pub dp : Option ℕ
  pub entry : Option FilePath
  pub offset : ℕ

-- `struct mpath_aux`: the descriptors, or the directories, of one open file on the devices.
pub record MpathAux : Type 0 where
  pub ldp : List LoopbackDirp
  pub devs_fd : List ℕ

-- The memory that the handles of open files point into, beside the world. A handle that was freed,
-- or never given out, has no entry.
pub record Loopback (W : Type 0) : Type 0 where
  pub world : W
  pub handles : ℕ → Option MpathAux
  pub next_handle : ℕ

-- The globals that `init_multi_loopback_driver` sets, the driver, the order in which the threads of
-- the pool run the requests, and what uninitialised memory holds.
pub record Setup (W : Type 0) : Type 0 where
  pub os : Posix W
  pub mode : DriverMode
  pub ndevs : ℕ
  pub devices_path : List FilePath
  pub driver : MultiDriver W
  pub order : List ℕ
  pub junk : ℕ → ℕ
  pub junk_error : ℤ

-- PATHSIZE of utils.h
abbrev pub path_size : ℕ
path_size = 500

abbrev pub on_world : {W A : Type 0} → (W → A × W) → Action (Loopback W) A
on_world f s = let (a, w) = f s.world in some (a, record s { world = w })

abbrev pub in_world : {W A : Type 0} → Action W A → Action (Loopback W) A
in_world f s = elim (f s.world) [ none ↦ none | some (a, w) ↦ some (a, record s { world = w }) ]

-- `mp = malloc(...)`, and what the handle points at.
abbrev pub new_handle : {W : Type 0} → MpathAux → Action (Loopback W) ℕ
new_handle mp s = some (
  s.next_handle,
  record s {
    handles = (λ p. if p == s.next_handle then some mp else s.handles p);
    next_handle = s.next_handle + 1;
  },
)

-- A read through a handle that is not allocated is undefined.
abbrev pub deref : {W : Type 0} → ℕ → Action (Loopback W) MpathAux
deref fh s = lift (s.handles fh) s

abbrev pub free_handle : {W : Type 0} → ℕ → Action (Loopback W) (Unit {0})
free_handle fh s = some (tt, record s { handles = (λ p. if p == fh then none else s.handles p) })

-- `f` for each of `count` devices from `first` on.
unfoldable pub for_devices {ℓ} : {A : Type ℓ} → (ℕ → Option A) → ℕ → ℕ → Option (List A)
for_devices f first zero = some []
for_devices f first (suc count) =
    let rest = for_devices f (first + 1) count in
    elim (f first) [ none ↦ none | some a ↦ elim rest [ none ↦ none | some as' ↦ some (a ∷ as') ] ]

abbrev pub same_results : List OpInfo → Bool
same_results [] = false
same_results (inf ∷ _) = moves_data inf

-- `if (res == -1) return inf[0].op_error; return 0;`
abbrev pub status : Outcome → ℤ
status out = if eq_ℤ out.res neg_one then out.op_error else pos 0

module _ {W : Type 0} (g : Setup W) where
  -- `strcpy` of the device's path and `replace_path`, in an array of PATHSIZE bytes: a longer path
  -- overflows it.
  unfoldable pub device_path : FilePath → ℕ → Option FilePath
  device_path path i = elim (get_elem? g.devices_path i) [
    | none ↦ none
    | some dev ↦ if ltb (length (dev ++ path)) path_size then some (dev ++ path) else none
  ]

  -- The threads run the requests in the order `order`, and each fills in its own reply.
  unfoldable pub run_requests : List ℕ → List OpInfo → List Reply → W → List Reply × W
  run_requests [] infs replies w = (replies, w)
  run_requests (i ∷ is) infs replies w = elim (get_elem? infs i) [
    | none ↦ run_requests is infs replies w
    | some inf ↦
        let (r, w') = threads_func g.os g.mode g.junk_error inf w in
        run_requests is infs (set replies i r) w'
  ]

  abbrev pub blank : Reply
  blank = record { op_res = g.junk_error; op_error = g.junk_error; buf = []; dp = none }

  -- Push the requests to the pool and wait for all.
  unfoldable pub dispatch : Option (List OpInfo) → Action (Loopback W) (Outcome × List Reply)
  unfolding run_requests wait_for_all_requests
  dispatch infs? = do
    infs ← lift infs?
    replies ← on_world (run_requests g.order infs (map (λ _. blank) infs))
    out ← lift (wait_for_all_requests (same_results infs) replies)
    pure (out, replies)

  -- One request for the path on each device.
  unfoldable pub path_requests : FilePath → (FilePath → OpInfo) → Option (List OpInfo)
  unfolding device_path
  path_requests path op =
      for_devices (λ i. elim (device_path path i) [ none ↦ none | some p ↦ some (op p) ]) 0 g.ndevs

  -- One request for a pair of paths on each device.
  unfoldable pub link_requests :
      FilePath → FilePath → (FilePath → FilePath → OpInfo) → Option (List OpInfo)
  unfolding device_path
  link_requests from to op =
      for_devices
        (λ i. elim (device_path from i) [
          | none ↦ none
          | some p ↦ elim (device_path to i) [ none ↦ none | some q ↦ some (op p q) ]
        ])
        0 g.ndevs

  -- One request for the descriptor on each device.
  unfoldable pub fd_requests : MpathAux → (ℕ → OpInfo) → Option (List OpInfo)
  fd_requests mp op =
      for_devices (λ i. elim (get_elem? mp.devs_fd i) [ none ↦ none | some fd ↦ some (op fd) ]) 0
        g.ndevs
