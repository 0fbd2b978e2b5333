-- ===== src/MultiLoopback/Spread.antt =====
-- A file spread over the devices by a driver whose shares combine: writing, truncating and its size.
use safefs.Prelude.{
  ℕ, zero, suc, take_of_le, drop_of_le, inl, inr, ◌+◌, ◌<◌, ◌≤◌, ◌^◌, ◌≡◌, ◌⊎◌, refl, ap, ap₂, sym,
  subst, ◌∙◌, Option, some, pos, List, ◌++◌, length, take, get_elem?, splice, arith, max, uninit,
  length-uninit, memcpy, memcpy-splice, ◌>>=◌, replicate, length-replicate, get_elem?-in,
  get_elem?-lt, length-take, length-splice, append-nil,
}
use safefs.Layers.{FilePath, Buffer, FileInfo}
use safefs.Drivers.Xor.{HaveSize}
use safefs.MultiLoopback.Requests.{rep, xor, OpInfo, Reply, Outcome, write_op}
use safefs.MultiLoopback.State.{Setup, Loopback, MpathAux, device_path, dispatch, deref}
use safefs.MultiLoopback.Files.{loopback_write, write_requests, unset, fresh_blocks}
use safefs.MultiLoopback.Devices.{IsSchedule, OnDevices, AllDiffer}
use safefs.MultiLoopback.Contract.{IsDisk, IsSplitter, splices}
use safefs.MultiLoopback.Threads.{run-write_op, write_requests_lem, driver_span_plain}
use safefs.MultiLoopback.Contents.{HaveSize-at, HaveSize-splices, length-splices, get_elem?-splices}
use safefs.MultiLoopback.Dispatch.{dispatch_lem, IsDeviceStep}

-- The devices are set up for a driver that stores as many bytes on each as the file has, and the
-- path fits the array for it.
pub record IsSetup {W : Type 0} (g : Setup W) (file : W → ℕ → Option Buffer)
    (combine : List Buffer → Buffer) (path : FilePath) : Type 0 where
  pub disk : IsDisk g.os file
  pub splitter : IsSplitter g.driver file combine
  pub plain : (g.mode ≡ rep) ⊎ (g.mode ≡ xor)
  pub some_device : 1 ≤ g.ndevs
  pub schedule : IsSchedule g.order g.ndevs
  pub fits : (i : ℕ) → i < g.ndevs → (p : FilePath) × (device_path g path i ≡ some p)

-- The handle is that of a file open on every device, and the devices' contents combine to `c`.
pub record IsSpread {W : Type 0} (g : Setup W) (file : W → ℕ → Option Buffer)
    (combine : List Buffer → Buffer) (fi : FileInfo) (s : Loopback W) (c : Buffer) : Type 0 where
  pub mp : MpathAux
  pub contents : List Buffer
  pub opened : s.handles fi.fh ≡ some mp
  pub enough : length mp.devs_fd ≡ g.ndevs
  pub devices : length contents ≡ g.ndevs
  pub differ : AllDiffer mp.devs_fd
  pub sizes : HaveSize (length c) contents
  pub combined : combine contents ≡ c
  pub on : OnDevices file mp.devs_fd contents s.world

module _ {W : Type 0} (g : Setup W) (file : W → ℕ → Option Buffer) (combine : List Buffer → Buffer)
    (path : FilePath) (fi : FileInfo) (setup : IsSetup g file combine path) where
  fresh_blocks_plain : (n : ℕ) → fresh_blocks g n ≡ replicate g.ndevs (uninit g.junk n)
  fresh_blocks_plain n = elim setup.plain [ inl m ↦ rw m refl | inr m ↦ rw m refl ]

  HaveSize-replicate : (n size : ℕ) (b : Buffer) → length b ≡ size → HaveSize size (replicate n b)
  HaveSize-replicate zero size b h = tt
  HaveSize-replicate (suc n) size b h = (h, HaveSize-replicate n size b h)

  -- Only the files matter of the world.
  pub moved :
      (s : Loopback W) (c : Buffer) (w : W)
      → IsSpread g file combine fi s c
      → ((h : ℕ) → file w h ≡ file s.world h)
      → IsSpread g file combine fi (record s { world = w }) c
  moved s c w spread same = record {
    mp = spread.mp;
    contents = spread.contents;
    opened = spread.opened;
    enough = spread.enough;
    devices = spread.devices;
    differ = spread.differ;
    sizes = spread.sizes;
    combined = spread.combined;
    on = (λ i fd c p q. same fd ∙ spread.on i fd c p q);
  }

  on_everywhere :
      (fds : List ℕ) (cs : List Buffer) (w w' : W)
      → OnDevices file fds cs w
      → ((h : ℕ) → file w' h ≡ file w h)
      → OnDevices file fds cs w'
  on_everywhere fds cs w w' on same = λ i fd c p q. same fd ∙ on i fd c p q

  thread_writes :
      (fds : List ℕ) (cs ms : List Buffer) (infs : List OpInfo) (size n offset : ℕ)
      → HaveSize size cs
      → HaveSize n ms
      → length ms ≡ length cs
      → offset ≤ size
      → n < 2 ^ 31
      → ((i fd : ℕ) (b : Buffer) (inf : OpInfo)
          → get_elem? infs i ≡ some inf
          → get_elem? fds i ≡ some fd
          → get_elem? ms i ≡ some b
          → inf ≡ write_op fd b n offset unset.1 unset.0)
      → IsDeviceStep g file fds cs (splices offset ms cs) infs (λ i c q. q.op_res ≡ pos n)
  thread_writes fds cs ms infs size n offset all all' len h hn request w i fd c c' inf ef ec ec' ei
        on =
      let at = get_elem?-lt cs i c ec in
      let (b, eb) = get_elem?-in ms i (omega (arith, at, len)) in
      let hc = HaveSize-at size cs i c all ec in
      let hb = HaveSize-at n ms i b all' eb in
      let (w', e, written, others) =
        setup.disk.pwrite_law w fd c b n offset on (omega (arith, hc)) hn (omega (arith, hb)) in
      let ran = run-write_op g setup.plain fd b n offset unset.1 n unset.0 w w' e in
      rw (request i fd b inf ei ef eb, ran)
        (
          refl,
          written
              ∙ ap (λ t. some (splice offset t c)) (whole n b hb)
              ∙ ap some (sym (get_elem?-splices offset ms cs i b c c' eb ec ec')),
          others,
        )
    where
      whole : (n : ℕ) (b : Buffer) → length b ≡ n → take n b ≡ b
      whole n b e = take_of_le n b (omega arith)

  -- The steps of `loopback_write`, one after the other.
  write_run :
      (s : Loopback W) (mp : MpathAux) (buf block : Buffer) (n offset : ℕ) (ms : List Buffer)
      (w : W) (out : Outcome) (replies : List Reply) (t : Loopback W)
      → s.handles fi.fh ≡ some mp
      → memcpy (uninit g.junk n) 0 buf n ≡ some block
      → g.driver.encode path (fresh_blocks g n) block offset n g.ndevs s.world ≡ some (ms, w)
      → dispatch g (write_requests g path mp ms n offset unset) (record s { world = w })
        ≡ some ((out, replies), t)
      → loopback_write g path buf n offset fi s ≡ some (out.res, t)
  unfolding loopback_write
  write_run s mp buf block n offset ms w out replies t opened copied encoded dispatched =
      rw
        (
          loopback_write,
          deref,
          ◌>>=◌,
          opened,
          copied,
          encoded,
          driver_span_plain g setup.plain path offset (record s { world = w }),
          dispatched,
        )
        refl

  -- A write of bytes that start in the file, or at its end.
  pub loopback_write_lem :
      (s : Loopback W) (c buf : Buffer) (n offset : ℕ)
      → IsSpread g file combine fi s c
      → offset ≤ length c
      → n < 2 ^ 31
      → n ≤ length buf
      → (s' : Loopback W) × (loopback_write g path buf n offset fi s ≡ some (pos n, s'))
        × IsSpread g file combine fi s' (splice offset (take n buf) c)
  unfolding loopback_write
  loopback_write_lem s c buf n offset spread h hn room =
      let fds = spread.mp.devs_fd in
      let cs = spread.contents in
      let block = take n buf in
      let hb : length block ≡ n = omega (arith, length-take n buf) in
      let copied : memcpy (uninit g.junk n) 0 buf n ≡ some block =
        memcpy-splice (uninit g.junk n) 0 buf n (omega (arith, length-uninit g.junk n)) room
        ∙ ap (λ t. some (block ++ t))
            (drop_of_le (0 + length block) (uninit g.junk n)
              (omega (arith, length-uninit g.junk n, hb)))
        ∙ ap some (append-nil block) in
      let blocks = replicate g.ndevs (uninit g.junk n) in
      let (ms, w1, encoded, all, len, share, kept) =
        setup.splitter.encode_law path s.world blocks block offset n g.ndevs
          (length-replicate g.ndevs (uninit g.junk n)) setup.some_device
          (HaveSize-replicate g.ndevs n (uninit g.junk n) (length-uninit g.junk n)) hb in
      let (infs, requested, many, request) =
        write_requests_lem g setup.plain path setup.fits spread.mp spread.enough ms n offset len in
      let cs' = splices offset ms cs in
      let len' : length ms ≡ length cs = len ∙ sym spread.devices in
      let (out, replies, w2, done, result, answered, replied, on) =
        dispatch_lem g file fds cs cs' infs (λ i c q. q.op_res ≡ pos n)
          (write_requests g path spread.mp ms n offset unset) (record s { world = w1 }) n requested
          (omega (arith, many, setup.some_device))
          (subst (IsSchedule g.order) (sym many) setup.schedule)
          (
            spread.enough ∙ sym many,
            spread.devices ∙ sym many,
            length-splices offset ms cs len' ∙ spread.devices ∙ sym many,
          )
          spread.differ
          (thread_writes fds cs ms infs (length c) n offset spread.sizes all len' h hn request)
          (λ i c q k. k) (on_everywhere fds cs s.world w1 spread.on kept) in
      (
        record s { world = w2 },
        write_run s spread.mp buf block n offset ms w1 out replies (record s { world = w2 })
              spread.opened copied (rw (fresh_blocks_plain n) encoded) done
            ∙ ap (λ r. some (r, record s { world = w2 })) result,
        record {
          mp = spread.mp;
          contents = cs';
          opened = spread.opened;
          enough = spread.enough;
          devices = length-splices offset ms cs len' ∙ spread.devices;
          differ = spread.differ;
          sizes =
              subst (λ k. HaveSize k cs')
                (sym (length-splice offset block c h ∙ ap (λ k. max (length c) (offset + k)) hb))
                (HaveSize-splices offset (length c) n ms cs len' all spread.sizes h);
          combined =
              setup.splitter.splice_law ms cs (length c) n offset
                (omega (arith, spread.devices, setup.some_device)) len' spread.sizes all h
              ∙ ap₂ (splice offset) share spread.combined;
          on = on;
        },
      )
