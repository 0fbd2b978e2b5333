-- ===== src/MultiLoopback/Dispatch.antt =====
-- `dispatch` on the files that stand behind the descriptors of an open file.
use safefs.Prelude.{
  ℕ, ◌<◌, ◌≡◌, ◌≢◌, refl, sym, ap, ◌∙◌, Option, some, List, length, map, get_elem?, pos, arith,
  length-map, get_elem?-in, get_elem?-lt, get_elem?-functional, subst,
}
use safefs.Layers.{Buffer}
use safefs.MultiLoopback.Requests.{OpInfo, Reply, Outcome}
use safefs.MultiLoopback.State.{Setup, Loopback, same_results, run_requests, blank, dispatch}
use safefs.MultiLoopback.Interleave.{IsLocal, run, run_requests_lem}
use safefs.MultiLoopback.Devices.{IsSchedule, OnDevices, AllDiffer, all_succeed, Every-all}

module _ {W : Type 0} (g : Setup W) (file : W → ℕ → Option Buffer) (fds : List ℕ)
    (cs cs' : List Buffer) (infs : List OpInfo) (Q : ℕ → Buffer → Reply → Type 0) where
  -- The request of device `i` takes its file from what `cs` has to what `cs'` has, with a reply as
  -- `Q` says, and leaves the other files alone.
  abbrev pub IsDeviceStep : Type 0
  IsDeviceStep =
      (w : W) (i fd : ℕ) (c c' : Buffer) (inf : OpInfo)
      → get_elem? fds i ≡ some fd
      → get_elem? cs i ≡ some c
      → get_elem? cs' i ≡ some c'
      → get_elem? infs i ≡ some inf
      → file w fd ≡ some c
      → Q i c (run g inf w).0
        × (file (run g inf w).1 fd ≡ some c')
        × ((h : ℕ) → h ≢ fd → file (run g inf w).1 h ≡ file w h)

  abbrev Before : W → ℕ → Type 0
  Before w i =
      (fd : ℕ) (c : Buffer)
      → get_elem? fds i ≡ some fd
      → get_elem? cs i ≡ some c
      → file w fd ≡ some c

  abbrev After : W → ℕ → Reply → Type 0
  After w i q =
      (fd : ℕ) (c c' : Buffer)
      → get_elem? fds i ≡ some fd
      → get_elem? cs i ≡ some c
      → get_elem? cs' i ≡ some c'
      → Q i c q × (file w fd ≡ some c')

  abbrev SameLengths : Type 0
  SameLengths = (length fds ≡ length infs) × (length cs ≡ length infs) × (length cs' ≡ length infs)

  -- The file of another device is left alone.
  elsewhere :
      IsDeviceStep
      → AllDiffer fds
      → SameLengths
      → (w : W) (i j fd : ℕ) (inf : OpInfo) → get_elem? infs i ≡ some inf
      → Before w i
      → j ≢ i
      → get_elem? fds j ≡ some fd
      → file (run g inf w).1 fd ≡ file w fd
  elsewhere step differ (n1, n2, n3) w i j fd inf e b other p =
      let h = get_elem?-lt infs i inf e in
      let (fdi, ei) = get_elem?-in fds i (omega (arith, n1, h)) in
      let (c, ec) = get_elem?-in cs i (omega (arith, n2, h)) in
      let (c', ec') = get_elem?-in cs' i (omega (arith, n3, h)) in
      (step w i fdi c c' inf ei ec ec' e (b fdi c ei ec)).2 fd
        (λ same. other (differ j i fd p (ei ∙ ap some (sym same))))

  is_local : IsDeviceStep → AllDiffer fds → SameLengths → IsLocal g infs Before After
  is_local step differ same = record {
    runs = (λ w i inf e b fd c c' p q q'.
        let done = step w i fd c c' inf p q q' e (b fd c p q) in (done.0, done.1));
    before_kept = (λ w i j inf e b other k fd c p q.
        elsewhere step differ same w i j fd inf e b other p ∙ k fd c p q);
    after_kept = (λ w i j inf r e b other k fd c c' p q q'.
        let (a, f) = k fd c c' p q q' in
        (a, elsewhere step differ same w i j fd inf e b other p ∙ f));
  }

  -- When all threads have run, each device has its reply and the contents that its request leaves.
  pub dispatch_lem :
      (infs? : Option (List OpInfo)) (s : Loopback W) (n : ℕ)
      → infs? ≡ some infs
      → 0 < length infs
      → IsSchedule g.order (length infs)
      → SameLengths
      → AllDiffer fds
      → IsDeviceStep
      → ((i : ℕ) (c : Buffer) (q : Reply) → Q i c q → q.op_res ≡ pos n)
      → OnDevices file fds cs s.world
      → (out : Outcome) × (replies : List Reply) × (w' : W) × (dispatch g infs? s
          ≡ some ((out, replies), record s { world = w' }))
        × (out.res ≡ pos n)
        × (length replies ≡ length infs)
        × ((i : ℕ) (q : Reply) (c : Buffer)
            → get_elem? replies i ≡ some q
            → get_elem? cs i ≡ some c
            → Q i c q)
        × OnDevices file fds cs' w'
  unfolding dispatch
  dispatch_lem infs? s n e some_device schedule (n1, n2, n3) differ step succeed on =
      let blanks = map (λ (x : OpInfo). blank g) infs in
      let blank_length = length-map (λ (x : OpInfo). blank g) infs in
      let ran =
        run_requests_lem g infs Before After (is_local step differ (n1, n2, n3)) g.order blanks
          s.world schedule.once
          (Every-all _ g.order (λ i at.
            let (inf, ei) = get_elem?-in infs i (schedule.devices i at) in
            (inf, ei, λ fd c p q. on i fd c p q)))
          (Every-all (λ i. i < length blanks) g.order
            (λ i at. omega (arith, schedule.devices i at, blank_length))) in
      let replies = (run_requests g g.order infs blanks s.world).0 in
      let w' = (run_requests g g.order infs blanks s.world).1 in
      let of_device : (i : ℕ)
          → i < length infs
          → (q : Reply) × After w' i q × (get_elem? replies i ≡ some q) =
        λ i h. ran.1 i (schedule.all_served i h) in
      let len : length replies ≡ length infs = ran.0 ∙ blank_length in
      let answered : (i : ℕ) (q : Reply) (c : Buffer)
          → get_elem? replies i ≡ some q
          → get_elem? cs i ≡ some c
          → Q i c q =
        λ i q c p k.
          let h = get_elem?-lt cs i c k in
          let (fd, ef) = get_elem?-in fds i (omega (arith, n1, n2, h)) in
          let (c', ec') = get_elem?-in cs' i (omega (arith, n2, n3, h)) in
          let (r, a, er) = of_device i (omega (arith, n2, h)) in
          subst (Q i c) (get_elem?-functional replies i er p) (a fd c c' ef k ec').0 in
      let (out, eo, result) =
        all_succeed (same_results infs) replies n (omega (arith, len, some_device)) (λ i q p.
          let h = get_elem?-lt replies i q p in
          let (c, ec) = get_elem?-in cs i (omega (arith, n2, len, h)) in
          succeed i c q (answered i q c p ec)) in
      (
        out,
        replies,
        w',
        rw (e, eo) refl,
        result,
        len,
        answered,
        λ i fd c' p q.
            let h = get_elem?-lt fds i fd p in
            let (c, ec) = get_elem?-in cs i (omega (arith, n1, n2, h)) in
            let (r, a, er) = of_device i (omega (arith, n1, h)) in (a fd c c' p ec q).1,
      )
