-- ===== src/MultiLoopback/Threads.antt =====
-- What a thread does where each device holds as many bytes as the file: in the modes REP and XOR.
use safefs.Prelude.{
  ℕ, ◌<◌, ◌≡◌, ◌⊎◌, inl, inr, refl, sym, ◌∙◌, Option, none, some, ℤ, pos, List, [], length,
  get_elem?, arith, uninit, get_elem?-in, get_elem?-lt, some_injective,
}
use safefs.Layers.{Buffer, FilePath}
use safefs.MultiLoopback.Requests.{
  rep, xor, OpInfo, read_op, write_op, ftruncate_op, Reply, threads_func, read_device, write_device,
  reply, done,
}
use safefs.MultiLoopback.State.{Setup, Loopback, MpathAux, device_path, fd_requests}
use safefs.MultiLoopback.Files.{
  read_request, read_requests, write_request, write_requests, driver_span, block_length, unset,
}
use safefs.MultiLoopback.Interleave.{run}
use safefs.MultiLoopback.Devices.{for_devices_all}

module _ {W : Type 0} (g : Setup W) (plain : (g.mode ≡ rep) ⊎ (g.mode ≡ xor)) where
  abbrev pub answer : ℤ → Buffer → Reply
  answer res buf = record { op_res = res; op_error = g.junk_error; buf = buf; dp = none }

  pub run-read_op :
      (fd : ℕ) (buf buf' : Buffer) (size offset bs n : ℕ) (bo : ℤ) (w w' : W)
      → g.os.pread fd buf size (pos offset) w ≡ ((pos n, buf'), w')
      → run g (read_op fd buf size offset bs bo) w ≡ (answer (pos n) buf', w')
  unfolding threads_func read_device reply
  run-read_op fd buf buf' size offset bs n bo w w' e = elim plain [
    | inl m ↦ rw (m, e) refl
    | inr m ↦ rw (m, e) refl
  ]

  pub run-write_op :
      (fd : ℕ) (buf : Buffer) (size offset bs n : ℕ) (bo : ℤ) (w w' : W)
      → g.os.pwrite fd buf size (pos offset) w ≡ (pos n, w')
      → run g (write_op fd buf size offset bs bo) w ≡ (answer (pos n) buf, w')
  unfolding threads_func write_device reply
  run-write_op fd buf size offset bs n bo w w' e = elim plain [
    | inl m ↦ rw (m, e) refl
    | inr m ↦ rw (m, e) refl
  ]

  pub run-ftruncate_op :
      (fd size n : ℕ) (w w' : W)
      → g.os.ftruncate fd size w ≡ (pos n, w')
      → run g (ftruncate_op fd size) w ≡ (answer (pos n) [], w')
  unfolding threads_func done reply
  run-ftruncate_op fd size n w w' e = rw e refl

  pub driver_span_plain :
      (path : FilePath) (offset : ℕ) (s : Loopback W)
      → driver_span g path offset unset s ≡ some (unset, s)
  driver_span_plain path offset s = elim plain [ inl m ↦ rw m refl | inr m ↦ rw m refl ]

  pub block_length_plain : (size n : ℕ) → block_length g size n ≡ size
  block_length_plain size n = elim plain [ inl m ↦ rw m refl | inr m ↦ rw m refl ]

  -- The requests of an operation on an open file, one for each device.
  module _ (path : FilePath)
      (fits : (i : ℕ) → i < g.ndevs → (p : FilePath) × (device_path g path i ≡ some p))
      (mp : MpathAux) (enough : length mp.devs_fd ≡ g.ndevs) where
    read_request_lem :
        (size offset i fd : ℕ)
        → get_elem? mp.devs_fd i ≡ some fd
        → read_request g path mp size offset unset i
          ≡ some (read_op fd (uninit g.junk size) size offset unset.1 unset.0)
    unfolding read_request
    read_request_lem size offset i fd e =
        let (p, ep) = fits i (omega (arith, get_elem?-lt mp.devs_fd i fd e, enough)) in
        rw (read_request, ep, e, block_length_plain size unset.1) refl

    pub read_requests_lem :
        (size offset : ℕ)
        → (infs : List OpInfo) × (read_requests g path mp size offset unset ≡ some infs)
          × (length infs ≡ g.ndevs)
          × ((i fd : ℕ) (inf : OpInfo)
              → get_elem? infs i ≡ some inf
              → get_elem? mp.devs_fd i ≡ some fd
              → inf ≡ read_op fd (uninit g.junk size) size offset unset.1 unset.0)
    unfolding read_requests
    read_requests_lem size offset =
        let (infs, e, len, at) =
          for_devices_all (read_request g path mp size offset unset) g.ndevs (λ i h.
            let (fd, ef) = get_elem?-in mp.devs_fd i (omega (arith, enough, h)) in
            (
              read_op fd (uninit g.junk size) size offset unset.1 unset.0,
              read_request_lem size offset i fd ef,
            )) in
        (
          infs,
          e,
          len,
          λ i fd inf p q. some_injective (sym (at i inf p) ∙ read_request_lem size offset i fd q),
        )

    write_request_lem :
        (magicblocks : List Buffer) (size offset i fd : ℕ) (b : Buffer)
        → get_elem? mp.devs_fd i ≡ some fd
        → get_elem? magicblocks i ≡ some b
        → write_request g path mp magicblocks size offset unset i
          ≡ some (write_op fd b size offset unset.1 unset.0)
    unfolding write_request
    write_request_lem magicblocks size offset i fd b e eb =
        let (p, ep) = fits i (omega (arith, get_elem?-lt mp.devs_fd i fd e, enough)) in
        rw (write_request, ep, e, eb) refl

    pub write_requests_lem :
        (magicblocks : List Buffer) (size offset : ℕ)
        → length magicblocks ≡ g.ndevs
        → (infs : List OpInfo) × (write_requests g path mp magicblocks size offset unset
            ≡ some infs)
          × (length infs ≡ g.ndevs)
          × ((i fd : ℕ) (b : Buffer) (inf : OpInfo)
              → get_elem? infs i ≡ some inf
              → get_elem? mp.devs_fd i ≡ some fd
              → get_elem? magicblocks i ≡ some b
              → inf ≡ write_op fd b size offset unset.1 unset.0)
    unfolding write_requests
    write_requests_lem magicblocks size offset n =
        let (infs, e, len, at) =
          for_devices_all (write_request g path mp magicblocks size offset unset) g.ndevs (λ i h.
            let (fd, ef) = get_elem?-in mp.devs_fd i (omega (arith, enough, h)) in
            let (b, eb) = get_elem?-in magicblocks i (omega (arith, n, h)) in
            (
              write_op fd b size offset unset.1 unset.0,
              write_request_lem magicblocks size offset i fd b ef eb,
            )) in
        (
          infs,
          e,
          len,
          λ i fd b inf p q r.
              some_injective
                (sym (at i inf p) ∙ write_request_lem magicblocks size offset i fd b q r),
        )

    pub ftruncate_requests_lem :
        (size : ℕ)
        → (infs : List OpInfo) × (fd_requests g mp (λ fd. ftruncate_op fd size) ≡ some infs)
          × (length infs ≡ g.ndevs)
          × ((i fd : ℕ) (inf : OpInfo)
              → get_elem? infs i ≡ some inf
              → get_elem? mp.devs_fd i ≡ some fd
              → inf ≡ ftruncate_op fd size)
    unfolding fd_requests
    ftruncate_requests_lem size =
        let f : ℕ → Option OpInfo = λ i. elim (get_elem? mp.devs_fd i) [
          | none ↦ none
          | some fd ↦ some (ftruncate_op fd size)
        ] in
        let (infs, e, len, at) = for_devices_all f g.ndevs (λ i h.
          let (fd, ef) = get_elem?-in mp.devs_fd i (omega (arith, enough, h)) in
          (ftruncate_op fd size, rw ef refl)) in
        (
          infs,
          e,
          len,
          λ i fd inf p q.
              let here : f i ≡ some (ftruncate_op fd size) = rw q refl in
              some_injective (sym (at i inf p) ∙ here),
        )
