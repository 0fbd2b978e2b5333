-- ===== src/MultiLoopback/SpreadResize.antt =====
-- A file spread over the devices: truncating it, and its size.
use safefs.Prelude.{
  ℕ, ◌≤◌, ◌≡◌, refl, ap, sym, subst, ◌∙◌, Option, some, pos, List, length, map, take, drop,
  get_elem?, arith, min, get_elem?-in, get_elem?-functional, get_elem?-map, length-map, length-take,
  ◌>>=◌, inl, inr,
}
use safefs.Layers.{FilePath, Buffer, FileInfo, Stat}
use safefs.Drivers.Xor.{HaveSize}
use safefs.MultiLoopback.Requests.{OpInfo, Reply, Outcome, ftruncate_op}
use safefs.MultiLoopback.State.{Setup, Loopback, MpathAux, dispatch, deref, fd_requests}
use safefs.MultiLoopback.Paths.{driver_size_of}
use safefs.MultiLoopback.Files.{loopback_ftruncate, loopback_fgetattr, run_descriptors}
use safefs.MultiLoopback.Devices.{IsSchedule}
use safefs.MultiLoopback.Threads.{run-ftruncate_op, ftruncate_requests_lem}
use safefs.MultiLoopback.Contents.{HaveSize-at, HaveSize-map}
use safefs.MultiLoopback.Spread.{IsSetup, IsSpread, moved}
use safefs.MultiLoopback.Dispatch.{dispatch_lem, IsDeviceStep}

module _ {W : Type 0} (g : Setup W) (file : W → ℕ → Option Buffer) (combine : List Buffer → Buffer)
    (path : FilePath) (fi : FileInfo) (setup : IsSetup g file combine path) where
  thread_truncates :
      (fds : List ℕ) (cs : List Buffer) (infs : List OpInfo) (length_of size : ℕ)
      → HaveSize length_of cs
      → size ≤ length_of
      → ((i fd : ℕ) (inf : OpInfo)
          → get_elem? infs i ≡ some inf
          → get_elem? fds i ≡ some fd
          → inf ≡ ftruncate_op fd size)
      → IsDeviceStep g file fds cs
          (map (λ c. take size (drop 0 c)) cs)
          infs
          (λ i c q. q.op_res ≡ pos 0)
  thread_truncates fds cs infs length_of size all h request w i fd c c' inf ef ec ec' ei on =
      let hc = HaveSize-at length_of cs i c all ec in
      let (w', e, cut, others) = setup.disk.ftruncate_law w fd c size on (omega (arith, hc)) in
      let (x, ex, same) = get_elem?-map (λ c. take size (drop 0 c)) cs i c' ec' in
      rw (request i fd inf ei ef, run-ftruncate_op g setup.plain fd size 0 w w' e)
        (
          refl,
          cut ∙ ap (λ t. some (take size t)) (get_elem?-functional cs i ec ex) ∙ ap some (sym same),
          others,
        )

  truncate_run :
      (s : Loopback W) (mp : MpathAux) (size n : ℕ) (out : Outcome) (replies : List Reply)
      (t : Loopback W)
      → s.handles fi.fh ≡ some mp
      → dispatch g (fd_requests g mp (λ fd. ftruncate_op fd size)) s ≡ some ((out, replies), t)
      → out.res ≡ pos n
      → loopback_ftruncate g path size fi s ≡ some (pos 0, t)
  unfolding loopback_ftruncate
  truncate_run s mp size n out replies t opened dispatched result =
      rw (loopback_ftruncate, run_descriptors, deref, ◌>>=◌, opened, dispatched, result) refl

  -- A truncation to at most the size.
  pub loopback_ftruncate_lem :
      (s : Loopback W) (c : Buffer) (size : ℕ)
      → IsSpread g file combine fi s c
      → size ≤ length c
      → (s' : Loopback W) × (loopback_ftruncate g path size fi s ≡ some (pos 0, s'))
        × IsSpread g file combine fi s' (take size c)
  loopback_ftruncate_lem s c size spread h =
      let fds = spread.mp.devs_fd in
      let cs = spread.contents in
      let cut : Buffer → Buffer = λ c. take size (drop 0 c) in
      let (infs, requested, many, request) =
        ftruncate_requests_lem g setup.plain path setup.fits spread.mp spread.enough size in
      let (out, replies, w2, done, result, answered, replied, on) =
        dispatch_lem g file fds cs (map cut cs) infs (λ i c q. q.op_res ≡ pos 0)
          (fd_requests g spread.mp (λ fd. ftruncate_op fd size)) s 0 requested
          (omega (arith, many, setup.some_device))
          (subst (IsSchedule g.order) (sym many) setup.schedule)
          (
            spread.enough ∙ sym many,
            spread.devices ∙ sym many,
            length-map cut cs ∙ spread.devices ∙ sym many,
          )
          spread.differ (thread_truncates fds cs infs (length c) size spread.sizes h request)
          (λ i c q k. k) spread.on in
      (
        record s { world = w2 },
        truncate_run s spread.mp size 0 out replies (record s { world = w2 }) spread.opened done
            result,
        record {
          mp = spread.mp;
          contents = map cut cs;
          opened = spread.opened;
          enough = spread.enough;
          devices = length-map cut cs ∙ spread.devices;
          differ = spread.differ;
          sizes =
              HaveSize-map cut (length c) (length (take size c)) cs spread.sizes
                (λ x hx. length-take size x ∙ ap (min size) hx ∙ sym (length-take size c));
          combined =
              setup.splitter.window_law cs (length c) size 0
                (omega (arith, spread.devices, setup.some_device)) spread.sizes
              ∙ ap (take size) spread.combined;
          on = on;
        },
      )

  driver_size_plain : (st : Stat) (s : Loopback W) → driver_size_of g path st s ≡ some (st, s)
  driver_size_plain st s = elim setup.plain [ inl m ↦ rw m refl | inr m ↦ rw m refl ]

  fgetattr_run :
      (s : Loopback W) (mp : MpathAux) (fd : ℕ) (st st' : Stat) (w : W)
      → s.handles fi.fh ≡ some mp
      → get_elem? mp.devs_fd 0 ≡ some fd
      → g.os.fstat fd st s.world ≡ ((pos 0, st'), w)
      → loopback_fgetattr g path st fi s ≡ some ((pos 0, st'), record s { world = w })
  unfolding loopback_fgetattr
  fgetattr_run s mp fd st st' w opened first stat =
      rw
        (
          loopback_fgetattr,
          deref,
          ◌>>=◌,
          opened,
          first,
          stat,
          driver_size_plain (g.os.fstat fd st s.world).0.1 (record s { world = w }),
          stat,
        )
        refl

  -- The size of the file is that of its part on the first device.
  pub loopback_fgetattr_lem :
      (s : Loopback W) (c : Buffer) (st : Stat)
      → IsSpread g file combine fi s c
      → (st' : Stat) × (s' : Loopback W) × (loopback_fgetattr g path st fi s
          ≡ some ((pos 0, st'), s'))
        × (st'.st_size ≡ pos (length c))
        × IsSpread g file combine fi s' c
  loopback_fgetattr_lem s c st spread =
      let one = setup.some_device in
      let (fd, ef) = get_elem?-in spread.mp.devs_fd 0 (omega (arith, spread.enough, one)) in
      let (x, ex) = get_elem?-in spread.contents 0 (omega (arith, spread.devices, one)) in
      let (st', w, e, size, same) = setup.disk.fstat_law s.world fd x st (spread.on 0 fd x ef ex) in
      (
        st',
        record s { world = w },
        fgetattr_run s spread.mp fd st st' w spread.opened ef e,
        size ∙ ap pos (HaveSize-at (length c) spread.contents 0 x spread.sizes ex),
        moved g file combine path fi setup s c w spread same,
      )

  -- What is reported of the file is what the kernel reports of a file of a device.
  pub loopback_fgetattr_stat :
      (s : Loopback W) (c : Buffer) (st : Stat)
      → IsSpread g file combine fi s c
      → (fd : ℕ) × (x : Buffer) × (st' : Stat) × (w : W) × (file s.world fd ≡ some x)
        × (g.os.fstat fd st s.world ≡ ((pos 0, st'), w))
        × (loopback_fgetattr g path st fi s ≡ some ((pos 0, st'), record s { world = w }))
  loopback_fgetattr_stat s c st spread =
      let one = setup.some_device in
      let (fd, ef) = get_elem?-in spread.mp.devs_fd 0 (omega (arith, spread.enough, one)) in
      let (x, ex) = get_elem?-in spread.contents 0 (omega (arith, spread.devices, one)) in
      let there = spread.on 0 fd x ef ex in
      let (st', w, e, _, _) = setup.disk.fstat_law s.world fd x st there in
      (fd, x, st', w, there, e, fgetattr_run s spread.mp fd st st' w spread.opened ef e)
