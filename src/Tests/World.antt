-- ===== src/Tests/World.antt =====
-- A world with files, directories and a generator's seed, and the system calls in it.
use safefs.Prelude.{
  ℕ, ◌≡◌, ◌≢◌, refl, ◌==◌, ==_iff, false, inl, inr, Option, none, some, ℤ, pos, negsuc, neg_one,
  List, [], ◌∷◌, length, take, drop, splice, min, ◌-◌, if◌then◌else◌, Bool-cases,
}
use safefs.Layers.{FilePath, Buffer, Stat}
use safefs.MultiLoopback.Posix.{Posix}
use safefs.MultiLoopback.Contract.{IsDisk}

pub record World : Type 0 where
  pub seed : ℕ
  pub error : ℕ
  pub files : ℕ → Option Buffer
  pub made : List FilePath
  pub names : List FilePath
  -- Files by their names, for the functions of stdio.h.
  pub stored : FilePath → Option Buffer

abbrev pub file0 : World → ℕ → Option Buffer
file0 w fd = w.files fd

abbrev pub put : ℕ → Buffer → World → World
put fd c w = record w { files = (λ h. if h == fd then some c else w.files h) }

abbrev pub pread0 : ℕ → Buffer → ℕ → ℤ → World → (ℤ × Buffer) × World
pread0 fd buf n (pos offset) w = elim (w.files fd) [
  | none ↦ ((neg_one, buf), w)
  | some c ↦ ((pos (min n (length c - offset)), splice 0 (take n (drop offset c)) buf), w)
]
pread0 fd buf n (negsuc _) w = ((neg_one, buf), w)

abbrev pub pwrite0 : ℕ → Buffer → ℕ → ℤ → World → ℤ × World
pwrite0 fd buf n (pos offset) w = elim (w.files fd) [
  | none ↦ (neg_one, w)
  | some c ↦ (pos n, put fd (splice offset (take n buf) c) w)
]
pwrite0 fd buf n (negsuc _) w = (neg_one, w)

abbrev pub ftruncate0 : ℕ → ℕ → World → ℤ × World
ftruncate0 fd size w = elim (w.files fd) [
  | none ↦ (neg_one, w)
  | some c ↦ (pos 0, put fd (take size c) w)
]

abbrev pub fstat0 : ℕ → Stat → World → (ℤ × Stat) × World
fstat0 fd st w = elim (w.files fd) [
  | none ↦ ((neg_one, st), w)
  | some c ↦ ((pos 0, record st { st_size = pos (length c) }), w)
]

abbrev pub readdir0 : List FilePath → World → Option FilePath × World
readdir0 [] w = (none, w)
readdir0 (name ∷ names) w = (some name, record w { names = names })

-- The calls that the tests do not reach fail.
abbrev pub posix0 : Posix World
posix0 = record {
  errno = (λ w. w.error);
  set_errno = (λ e w. record w { error = e });
  is_fifo = (λ _. false);
  lstat = (λ _ st w. ((neg_one, st), w));
  stat = (λ _ st w. ((neg_one, st), w));
  fstat = fstat0;
  readlink = (λ _ buf _ w. ((neg_one, buf), w));
  pread = pread0;
  pwrite = pwrite0;
  dup = (λ _ w. (neg_one, w));
  close = (λ _ w. (neg_one, w));
  fsync = (λ _ w. (neg_one, w));
  truncate = (λ _ _ w. (neg_one, w));
  ftruncate = ftruncate0;
  mkfifo = (λ _ _ w. (neg_one, w));
  mknod = (λ _ _ _ w. (neg_one, w));
  mkdir = (λ p _ w. (pos 0, record w { made = p ∷ w.made }));
  unlink = (λ _ w. (neg_one, w));
  rmdir = (λ _ w. (neg_one, w));
  open_create = (λ _ _ _ w. (neg_one, w));
  open_file = (λ _ _ w. (neg_one, w));
  opendir = (λ _ w. (none, w));
  closedir = (λ _ w. (neg_one, w));
  readdir = (λ _ w. readdir0 w.names w);
  seekdir = (λ _ _ w. w);
  telldir = (λ _ w. length w.names);
  symlink = (λ _ _ w. (neg_one, w));
  rename = (λ _ _ w. (neg_one, w));
  link = (λ _ _ w. (neg_one, w));
  chmod = (λ _ _ w. (neg_one, w));
  lchown = (λ _ _ _ w. (neg_one, w));
  statvfs = (λ _ buf w. ((neg_one, buf), w));
}

put_same : (fd : ℕ) (c : Buffer) (w : World) → file0 (put fd c w) fd ≡ some c
put_same fd c w = rw ((==_iff fd fd).1 refl) refl

put_other : (fd h : ℕ) (c : Buffer) (w : World) → h ≢ fd → file0 (put fd c w) h ≡ file0 w h
put_other fd h c w differ = elim (Bool-cases (h == fd)) [
  | inl e ↦ absurd (differ ((==_iff h fd).0 e))
  | inr e ↦ rw e refl
]

pub posix0-IsDisk : IsDisk posix0 file0
posix0-IsDisk = record {
  pread_law = (λ w fd c buf n offset e h k room. (w, rw (pread0, e) refl, λ _. refl));
  pwrite_law = (λ w fd c buf n offset e h k room. (
    put fd (splice offset (take n buf) c) w,
    rw (pwrite0, e) refl,
    put_same fd (splice offset (take n buf) c) w,
    λ j differ. put_other fd j (splice offset (take n buf) c) w differ,
  ));
  ftruncate_law = (λ w fd c size e h. (
    put fd (take size c) w,
    rw (ftruncate0, e) refl,
    put_same fd (take size c) w,
    λ j differ. put_other fd j (take size c) w differ,
  ));
  fstat_law = (λ w fd c st e.
      (record st { st_size = pos (length c) }, w, rw (fstat0, e) refl, refl, λ _. refl));
}
