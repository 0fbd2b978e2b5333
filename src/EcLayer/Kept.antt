-- ===== src/EcLayer/Kept.antt =====
-- A file of ec_layer between two calls: its fragments in their files, and how it is loaded and
-- decoded, and encoded and dumped.
use safefs.Prelude.{
  ℕ, ◌≤◌, ◌≡◌, refl, ap, ap₂, sym, ◌∙◌, some, none, le→leb, lt→leb, ◌<◌, List, length, take,
  take_of_le, length-take, arith, ◌>>=◌,
}
use safefs.Layers.{FilePath, Buffer}
use safefs.Config.{codes}
use safefs.Drivers.Xor.{HaveSize}
use safefs.Erasure.{Liberasurecode}
use safefs.EcLayer.Blocks.{
  EncodedFile, Stdio, encoded_file_new, encoded_file_copy, copy_blocks, encode, decode, dump_list,
  dump_blocks, load_list, load_blocks,
}
use safefs.EcLayer.Fragments.{
  names_from, name_of, IsStdio, Fragments, Fragments-frame, dump_list_lem, load_list_lem,
  copy_blocks_lem, copy_names_lem,
}

-- The code makes `k` fragments of data and `m` of parity, all of one length, and those of data are
-- enough to decode them.
pub record IsEcCode (lib : Liberasurecode) (k m : ℕ) : Type 0 where
  pub data_law : (bytes : Buffer) (n : ℕ) → length (lib.encode bytes n).0 ≡ k
  pub parity_law : (bytes : Buffer) (n : ℕ) → length (lib.encode bytes n).1 ≡ m
  pub data_length_law :
      (bytes : Buffer) (n : ℕ) → HaveSize (lib.encode bytes n).2 (lib.encode bytes n).0
  pub parity_length_law :
      (bytes : Buffer) (n : ℕ) → HaveSize (lib.encode bytes n).2 (lib.encode bytes n).1
  pub decode_law :
      (bytes : Buffer) (n : ℕ)
      → n ≤ length bytes
      → lib.decode (lib.encode bytes n).0 k (lib.encode bytes n).2 ≡ (take n bytes, n)

-- The record that FILES has for a file with the contents `c`.
pub record IsKept {W : Type 0} (io : Stdio W) (lib : Liberasurecode) (k m : ℕ) (path : FilePath)
    (w : W) (ef : EncodedFile) (c : Buffer) : Type 0 where
  pub ds : List Buffer
  pub ps : List Buffer
  pub data_dropped : ef.data_blocks ≡ none
  pub parity_dropped : ef.parity_blocks ≡ none
  pub data_at : ef.data_blocks_location ≡ some (names_from io (codes ".data") path 0 k)
  pub parity_at : ef.parity_blocks_location ≡ some (names_from io (codes ".parity") path 0 m)
  pub data_count : length ds ≡ k
  pub parity_count : length ps ≡ m
  pub data_sizes : HaveSize ef.fragment_size ds
  pub parity_sizes : HaveSize ef.fragment_size ps
  pub data_there : Fragments io (codes ".data") path 0 ds w
  pub parity_there : Fragments io (codes ".parity") path 0 ps w
  pub decodes : lib.decode ds k ef.fragment_size ≡ (c, length c)
  pub whole : ef.size ≡ length c

module _ {W : Type 0} (io : Stdio W) (lib : Liberasurecode) (k m : ℕ) (junk : ℕ → ℕ)
    (path : FilePath) where
  pub load_decode :
      (w : W) (ef : EncodedFile) (c : Buffer)
      → IsKept io lib k m path w ef c
      → (loaded : EncodedFile) × (load_blocks lib k m io junk ef w ≡ some loaded)
        × (decode lib k m loaded ≡ some c)
  unfolding load_blocks decode
  load_decode w ef c kept =
      let dot_data = codes ".data" in
      let parity = codes ".parity" in
      let size = ef.fragment_size in
      let got_data : load_list io junk (names_from io dot_data path 0 k) size k w ≡ some kept.ds =
        ap (λ n. load_list io junk (names_from io dot_data path 0 n) size n w) (sym kept.data_count)
        ∙ load_list_lem io dot_data path junk size kept.ds 0 w kept.data_sizes kept.data_there in
      let got_parity : load_list io junk (names_from io parity path 0 m) size m w ≡ some kept.ps =
        ap (λ n. load_list io junk (names_from io parity path 0 n) size n w) (sym kept.parity_count)
        ∙ load_list_lem io parity path junk size kept.ps 0 w kept.parity_sizes kept.parity_there in
      (
        record ef { data_blocks = some kept.ds; parity_blocks = some kept.ps },
        rw (load_blocks, kept.data_at, kept.parity_at, got_data, got_parity)
            (ap₂
              (λ dl pl. some (record ef {
                data_blocks = some kept.ds;
                parity_blocks = some kept.ps;
                data_blocks_location = dl;
                parity_blocks_location = pl;
              }))
              kept.data_at kept.parity_at),
        rw
            (
              decode,
              kept.decodes,
              le→leb (length c) (length c) (omega arith),
              take_of_le (length c) c (omega arith),
            )
            refl,
      )

  -- The copy that a read works on is equal to the record.
  pub copy_kept :
      (w : W) (ef : EncodedFile) (c : Buffer)
      → IsKept io lib k m path w ef c
      → m ≤ k
      → encoded_file_copy lib k m ef ≡ some ef
  unfolding encoded_file_copy
  copy_kept w ef c kept room =
      let dot_data = copy_names_lem io (codes ".data") path 0 k in
      let parity = copy_names_lem io (codes ".parity") path 0 m in
      rw
        (
          encoded_file_copy,
          kept.data_dropped,
          kept.parity_dropped,
          kept.data_at,
          dot_data,
          kept.parity_at,
          le→leb m k room,
          parity,
        )
        refl

  -- With more fragments of parity than of data the names overflow their array.
  pub copy_kept_overflow :
      (w : W) (ef : EncodedFile) (c : Buffer)
      → IsKept io lib k m path w ef c
      → k < m
      → encoded_file_copy lib k m ef ≡ none
  unfolding encoded_file_copy
  copy_kept_overflow w ef c kept beyond =
      rw
        (
          encoded_file_copy,
          kept.data_dropped,
          kept.parity_dropped,
          kept.data_at,
          copy_names_lem io (codes ".data") path 0 k,
          kept.parity_at,
          lt→leb m k beyond,
        )
        refl

  pub encode_dump :
      (code : IsEcCode lib k m) (stdio : IsStdio io path) (bytes : Buffer) (n : ℕ) (w : W)
      → n ≤ length bytes
      → (ef : EncodedFile) × (dumped : EncodedFile) × (w' : W) × (encode lib k m bytes n ≡ some ef)
        × (dump_blocks lib k m io junk ef path w ≡ some (dumped, w'))
        × IsKept io lib k m path w' dumped (take n bytes)
  unfolding encode dump_blocks encoded_file_new
  encode_dump code stdio bytes n w h =
      let dot_data = codes ".data" in
      let parity = codes ".parity" in
      let ds = (lib.encode bytes n).0 in
      let ps = (lib.encode bytes n).1 in
      let size = (lib.encode bytes n).2 in
      let k_data = code.data_law bytes n in
      let m_parity = code.parity_law bytes n in
      let sizes = code.data_length_law bytes n in
      let sizes' = code.parity_length_law bytes n in
      let copied : copy_blocks ds size k ≡ some ds =
        ap (copy_blocks ds size) (sym k_data) ∙ copy_blocks_lem size ds sizes in
      let copied' : copy_blocks ps size m ≡ some ps =
        ap (copy_blocks ps size) (sym m_parity) ∙ copy_blocks_lem size ps sizes' in
      let (w1, put, there, same) =
        dump_list_lem io dot_data path stdio.write_law stdio.data_law stdio.data_short size ds 0 w
          sizes in
      let (w2, put', there', same') =
        dump_list_lem io parity path stdio.write_law stdio.parity_law stdio.parity_short size ps 0
          w1 sizes' in
      let wrote : dump_list io dot_data path size ds 0 k w
          ≡ some (names_from io dot_data path 0 k, w1) =
        ap (λ j. dump_list io dot_data path size ds 0 j w) (sym k_data)
        ∙ put
        ∙ ap (λ j. some (names_from io dot_data path 0 j, w1)) k_data in
      let wrote' : dump_list io parity path size ps 0 m w1
          ≡ some (names_from io parity path 0 m, w2) =
        ap (λ j. dump_list io parity path size ps 0 j w1) (sym m_parity)
        ∙ put'
        ∙ ap (λ j. some (names_from io parity path 0 j, w2)) m_parity in
      let ef : EncodedFile = record {
        data_blocks = some ds;
        parity_blocks = some ps;
        data_blocks_location = none;
        parity_blocks_location = none;
        size = n;
        fragment_size = size;
      } in
      let len : length (take n bytes) ≡ n = omega (arith, length-take n bytes) in
      (
        ef,
        record ef {
          data_blocks = none;
          parity_blocks = none;
          data_blocks_location = some (names_from io dot_data path 0 k);
          parity_blocks_location = some (names_from io parity path 0 m);
        },
        w2,
        rw (encode, copied, copied') refl,
        rw (dump_blocks, ◌>>=◌, wrote, wrote') refl,
        record {
          ds = ds;
          ps = ps;
          data_dropped = refl;
          parity_dropped = refl;
          data_at = refl;
          parity_at = refl;
          data_count = k_data;
          parity_count = m_parity;
          data_sizes = sizes;
          parity_sizes = sizes';
          data_there =
              Fragments-frame io dot_data path 0 ds w1 w2 there
                (λ j _. same' (name_of io dot_data path j) (λ i _. stdio.apart_law j i));
          parity_there = there';
          decodes = code.decode_law bytes n h ∙ ap (λ j. (take n bytes, j)) (sym len);
          whole = sym len;
        },
      )
