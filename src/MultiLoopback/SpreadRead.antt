-- ===== src/MultiLoopback/SpreadRead.antt =====
-- A file spread over the devices: reading.
use safefs.Prelude.{
  ℕ, ◌-◌, ◌<◌, ◌≤◌, ◌^◌, ◌≡◌, refl, ap, ap₂, sym, subst, ◌∙◌, Option, some, pos, true, false, ltb,
  ltb→le, Bool-cases, inl, inr, List, [], ◌∷◌, ◌++◌, length, map, take, drop, get_elem?, splice,
  uninit, length-uninit, arith, min, get_elem?-functional, get_elem?-map, get_elem?-ext, length-map,
  length-splice, take-append_left, drop-append_right, ◌>>=◌,
}
use safefs.Layers.{FilePath, Buffer, FileInfo}
use safefs.Drivers.Xor.{HaveSize}
use safefs.MultiLoopback.Requests.{OpInfo, Reply, Outcome, read_op}
use safefs.MultiLoopback.State.{Setup, Loopback, MpathAux, dispatch, deref}
use safefs.MultiLoopback.Files.{loopback_read, read_requests, unset}
use safefs.MultiLoopback.Devices.{IsSchedule}
use safefs.MultiLoopback.Threads.{
  run-read_op, read_requests_lem, driver_span_plain, block_length_plain,
}
use safefs.MultiLoopback.Contents.{HaveSize-at, HaveSize-map, window, length-window, take-read}
use safefs.MultiLoopback.Spread.{IsSetup, IsSpread}
use safefs.MultiLoopback.Dispatch.{dispatch_lem, IsDeviceStep}

nothing : (xs : Buffer) → length xs ≡ 0 → xs ≡ []
nothing [] h = refl
nothing (x ∷ xs) h = absurd (omega arith)

module _ {W : Type 0} (g : Setup W) (file : W → ℕ → Option Buffer) (combine : List Buffer → Buffer)
    (path : FilePath) (fi : FileInfo) (setup : IsSetup g file combine path) where
  -- What a thread brings: the bytes that are there, in an array of the size asked for.
  abbrev Read : ℕ → ℕ → ℕ → ℕ → Buffer → Reply → Type 0
  Read r n offset i c q =
      (q.op_res ≡ pos r) × (q.buf ≡ splice 0 (window n offset c) (uninit g.junk n))

  thread_reads :
      (fds : List ℕ) (cs : List Buffer) (infs : List OpInfo) (size n offset : ℕ)
      → HaveSize size cs
      → offset ≤ size
      → n < 2 ^ 31
      → ((i fd : ℕ) (inf : OpInfo)
          → get_elem? infs i ≡ some inf
          → get_elem? fds i ≡ some fd
          → inf ≡ read_op fd (uninit g.junk n) n offset unset.1 unset.0)
      → IsDeviceStep g file fds cs cs infs (Read (min n (size - offset)) n offset)
  thread_reads fds cs infs size n offset all h hn request w i fd c c' inf ef ec ec' ei on =
      let hc = HaveSize-at size cs i c all ec in
      let (w', e, same) =
        setup.disk.pread_law w fd c (uninit g.junk n) n offset on (omega (arith, hc)) hn
          (omega (arith, length-uninit g.junk n)) in
      let ran =
        run-read_op g setup.plain fd (uninit g.junk n)
          (splice 0 (window n offset c) (uninit g.junk n)) n offset unset.1
          (min n (length c - offset)) unset.0 w w' e in
      rw (request i fd inf ei ef, ran)
        (
          (ap (λ k. pos (min n (k - offset))) hc, refl),
          same fd ∙ on ∙ ap some (get_elem?-functional cs i ec ec'),
          λ h _. same h,
        )

  -- The arrays that the threads filled.
  abbrev filled : ℕ → ℕ → Buffer → Buffer
  filled n offset c = splice 0 (window n offset c) (uninit g.junk n)

  length-filled : (n offset : ℕ) (c : Buffer) → length (filled n offset c) ≡ n
  length-filled n offset c = omega (
    arith,
    length-splice 0 (window n offset c) (uninit g.junk n) (omega arith),
    length-uninit g.junk n,
    length-window n offset c,
  )

  bufs_lem :
      (cs : List Buffer) (replies : List Reply) (r n offset : ℕ)
      → length replies ≡ length cs
      → ((i : ℕ) (q : Reply) (c : Buffer)
          → get_elem? replies i ≡ some q
          → get_elem? cs i ≡ some c
          → Read r n offset i c q)
      → map (λ q. q.buf) replies ≡ map (filled n offset) cs
  bufs_lem cs replies r n offset len answered =
      get_elem?-ext (map (λ (q : Reply). q.buf) replies) (map (filled n offset) cs)
        (length-map (λ (q : Reply). q.buf) replies ∙ len ∙ sym (length-map (filled n offset) cs))
        (λ i x y p q.
          let (a, ea, same) = get_elem?-map (λ (q : Reply). q.buf) replies i x p in
          let (c, ec, same') = get_elem?-map (filled n offset) cs i y q in
          same ∙ (answered i a c ea ec).1 ∙ sym same')

  -- The first bytes of what the arrays combine to are those of the file.
  combine-filled :
      (cs : List Buffer) (size n offset : ℕ)
      → 1 ≤ length cs
      → HaveSize size cs
      → take (min n (size - offset)) (combine (map (filled n offset) cs))
        ≡ take n (drop offset (combine cs))
  combine-filled cs size n offset some_device all =
      let r = min n (size - offset) in
      let whole : HaveSize n (map (filled n offset) cs) =
        HaveSize-map (filled n offset) size n cs all (λ c _. length-filled n offset c) in
      let count = length-map (filled n offset) cs in
      sym (
        setup.splitter.window_law (map (filled n offset) cs) n r 0
          (omega (arith, count, some_device)) whole)
      ∙ ap combine (prefixes cs all)
      ∙ setup.splitter.window_law cs size n offset some_device all
    where
      prefixes :
          (xs : List Buffer)
          → HaveSize size xs
          → map (λ c. take (min n (size - offset)) (drop 0 c)) (map (filled n offset) xs)
            ≡ map (window n offset) xs
      prefixes [] all = refl
      prefixes (x ∷ xs) (hx, all) =
          ap₂ ◌∷◌
            (ap (λ k. take (min n (k - offset)) (filled n offset x)) (sym hx)
              ∙ take-read n offset x (uninit g.junk n))
            (prefixes xs all)

  read_some :
      (s : Loopback W) (mp : MpathAux) (buf buf' : Buffer) (n offset r : ℕ) (out : Outcome)
      (replies : List Reply) (w w' : W)
      → s.handles fi.fh ≡ some mp
      → dispatch g (read_requests g path mp n offset unset) s
        ≡ some ((out, replies), record s { world = w })
      → out.res ≡ pos r
      → ltb 0 r ≡ true
      → g.driver.decode buf (map (λ q. q.buf) replies) n g.ndevs w ≡ some (buf', w')
      → loopback_read g path buf n offset fi s ≡ some ((pos r, buf'), record s { world = w' })
  unfolding loopback_read
  read_some s mp buf buf' n offset r out replies w w' opened dispatched result some_bytes decoded =
      rw
        (
          loopback_read,
          deref,
          ◌>>=◌,
          opened,
          driver_span_plain g setup.plain path offset s,
          dispatched,
          result,
          some_bytes,
          block_length_plain g setup.plain n unset.1,
          decoded,
        )
        (ap (λ k. some ((k, buf'), record s { world = w' })) result)

  read_none :
      (s : Loopback W) (mp : MpathAux) (buf : Buffer) (n offset r : ℕ) (out : Outcome)
      (replies : List Reply) (w : W)
      → s.handles fi.fh ≡ some mp
      → dispatch g (read_requests g path mp n offset unset) s
        ≡ some ((out, replies), record s { world = w })
      → out.res ≡ pos r
      → ltb 0 r ≡ false
      → loopback_read g path buf n offset fi s ≡ some ((pos r, buf), record s { world = w })
  unfolding loopback_read
  read_none s mp buf n offset r out replies w opened dispatched result no_bytes =
      rw
        (
          loopback_read,
          deref,
          ◌>>=◌,
          opened,
          driver_span_plain g setup.plain path offset s,
          dispatched,
          result,
          no_bytes,
        )
        refl

  -- A read from within the file, or from its end.
  pub loopback_read_lem :
      (s : Loopback W) (c buf : Buffer) (n offset : ℕ)
      → IsSpread g file combine fi s c
      → offset ≤ length c
      → n < 2 ^ 31
      → n ≤ length buf
      → (buf' : Buffer) × (s' : Loopback W) × (loopback_read g path buf n offset fi s
          ≡ some ((pos (min n (length c - offset)), buf'), s'))
        × (take (min n (length c - offset)) buf' ≡ take n (drop offset c))
        × (drop n buf' ≡ drop n buf)
        × IsSpread g file combine fi s' c
  loopback_read_lem s c buf n offset spread h hn room =
      let fds = spread.mp.devs_fd in
      let cs = spread.contents in
      let r = min n (length c - offset) in
      let (infs, requested, many, request) =
        read_requests_lem g setup.plain path setup.fits spread.mp spread.enough n offset in
      let (out, replies, w, done, result, answered, replied, on) =
        dispatch_lem g file fds cs cs infs (Read r n offset)
          (read_requests g path spread.mp n offset unset) s r requested
          (omega (arith, many, setup.some_device))
          (subst (IsSchedule g.order) (sym many) setup.schedule)
          (spread.enough ∙ sym many, spread.devices ∙ sym many, spread.devices ∙ sym many)
          spread.differ (thread_reads fds cs infs (length c) n offset spread.sizes h hn request)
          (λ i c q k. k.0) spread.on in
      let some_device : 1 ≤ length cs = omega (arith, spread.devices, setup.some_device) in
      let bufs = map (filled n offset) cs in
      let count : length bufs ≡ g.ndevs = length-map (filled n offset) cs ∙ spread.devices in
      let sizes : HaveSize n bufs =
        HaveSize-map (filled n offset) (length c) n cs spread.sizes
          (λ x _. length-filled n offset x) in
      let same : map (λ (q : Reply). q.buf) replies ≡ bufs =
        bufs_lem cs replies r n offset (answered ∙ many ∙ sym spread.devices) replied in
      let whole =
        setup.splitter.length_law bufs n (omega (arith, count, setup.some_device)) sizes in
      let right : take r (combine bufs) ≡ take n (drop offset c) =
        combine-filled cs (length c) n offset some_device spread.sizes
        ∙ ap (λ t. take n (drop offset t)) spread.combined in
      let spread' : IsSpread g file combine fi (record s { world = w }) c = record {
        mp = spread.mp;
        contents = cs;
        opened = spread.opened;
        enough = spread.enough;
        devices = spread.devices;
        differ = spread.differ;
        sizes = spread.sizes;
        combined = spread.combined;
        on = on;
      } in
      elim (Bool-cases (ltb 0 r)) [
        | inl some_bytes ↦ (
          combine bufs ++ drop n buf,
          record s { world = w },
          read_some s spread.mp buf (combine bufs ++ drop n buf) n offset r out replies w w
              spread.opened done result some_bytes
              (ap (λ t. g.driver.decode buf t n g.ndevs w) same
                ∙ setup.splitter.decode_law w buf bufs n g.ndevs count setup.some_device sizes
                    room),
          take-append_left r (combine bufs) (drop n buf) (omega (arith, whole)) ∙ right,
          ap (λ k. drop k (combine bufs ++ drop n buf)) (omega (arith, whole))
              ∙ drop-append_right 0 (combine bufs) (drop n buf),
          spread',
        )
        | inr no_bytes ↦
            let zero_bytes : r ≡ 0 = omega (arith, ltb→le 0 r no_bytes) in
            (
              buf,
              record s { world = w },
              read_none s spread.mp buf n offset r out replies w spread.opened done result no_bytes,
              ap (λ k. take k buf) zero_bytes
                  ∙ sym (nothing (window n offset c) (length-window n offset c ∙ zero_bytes)),
              refl,
              spread',
            )
      ]
