-- ===== src/Tfs/Create/Made.antt =====
-- tfs_create of fs/tfs.c, when an entry of the directory is found for the name.
use aar.Base.{
  ℕ, ◌+◌, ◌*◌, ◌<◌, ◌≤◌, ◌≡◌, ◌≢◌, refl, sym, ap, subst, ◌∙◌, some, done, arith, Returns,
}
use aar.Base.Int.{pos}
use aar.Libc.Compare.{Length}
use aar.Tfs.{Tfs, vfs_ok, put_word, block, entry_inode, characters}
use aar.Tfs.Exec.{goes, sector}
use aar.Tfs.Volume.Words.{word-put_word}
use aar.Tfs.Volume.Allocate.{bat_bit}
use aar.Tfs.Transfer.File.{NoFailures, data_sector, blocks_for}
use aar.Tfs.Create.{num_blocks, allocate, store, create_at}
use aar.Tfs.Create.Allocates.{NewFile, allocated, no_space, allocate-Allocates}
use aar.Tfs.Create.Stores.{Stored, store-Stored}
use aar.Tfs.Exec.{ends}
use aar.Tfs.Create.Creates.{
  num_blocks-pos, sector-injective, bat_bit-fill, stored-IsFile, stored-zero, stored-untouched,
  Creates, refuses, creates, Reserved, named, create_stop, create_go,
}
use aar.Tfs.Directory.Lookup.{NoneNamed}
use aar.Tfs.Create.Found.{tfs_open-filled}

-- The inode block is behind the system blocks.
above-Reserved : (s : Tfs) (p : ℕ) → Reserved s → bat_bit (s.disk (sector s 1)) p ≡ 0 → 2 ≤ p
above-Reserved s p h free =
    let bit = bat_bit (s.disk (sector s 1)) in
    let not_zero : p ≢ 0 = λ e. omega (arith, h 0 (omega arith), free, ap bit e) in
    let not_one : p ≢ 1 = λ e. omega (arith, h 1 (omega arith), free, ap bit e) in
    omega (arith, not_zero, not_one)

module _ (filename : ℕ → ℕ) (size index : ℕ) (s : Tfs) (ok : NoFailures s)
    (small : s.totalblocks ≤ 4096) (room : s.startblock + 4096 ≤ 0x100000000)
    (reserved : Reserved s) (fits : size ≤ 65024) (n : ℕ) (short : n ≤ 15)
    (l : Length (characters filename) n) (in_block : index < 25)
    (unused : NoneNamed s.buffer_md filename n 25) where
  abbrev start : Tfs
  start = named index filename s

  module _ (p : ℕ) (inode bat : ℕ → ℕ)
      (e : allocate (pos size) index start
        ≡ done (
          goes tt,
          record start {
            buffer_md = put_word start.buffer_md (5 * index) p;
            buffer_inode = inode;
            buffer_bat = bat;
          },
        ))
      (f : NewFile start.buffer_bat inode p size (blocks_for size) s.totalblocks) where
    abbrev ready : Tfs
    ready = record start {
      buffer_md = put_word start.buffer_md (5 * index) p;
      buffer_inode = inode;
      buffer_bat = bat;
    }

    entry_at : entry_inode ready.buffer_md index ≡ p
    entry_at = omega (arith, word-put_word start.buffer_md (5 * index) p, f.inside, small)

    stores :
        (s' : Tfs) × (store (pos size) index ready ≡ done (goes vfs_ok, s'))
        × Stored (blocks_for size) p ready s'
    stores =
        let m = num_blocks (pos size) in
        let same = num_blocks-pos size in
        let low : (j : ℕ) → j < blocks_for size → block inode j < 4096 =
          λ j h. omega (arith, f.within j h, small) in
        let apart : (j j' : ℕ)
            → j < m
            → j' < m
            → j ≢ j'
            → data_sector ready inode j ≢ data_sector ready inode j' =
          λ j j' h h' d g.
            let k : j < blocks_for size = omega (arith, same) in
            let k' : j' < blocks_for size = omega (arith, same) in
            f.apart j j' k k' d (
              sector-injective ready (block inode j) (block inode j') room (low j k) (low j' k')
                g) in
        let beside : (j : ℕ)
            → j < m
            → data_sector ready inode j ≢ sector ready (entry_inode ready.buffer_md index) =
          λ j h g.
            let k : j < blocks_for size = omega (arith, same) in
            f.beside j k (
              sector-injective ready (block inode j) p room (low j k)
                (omega (arith, f.inside, small)) (g ∙ ap (sector ready) entry_at)) in
        let bit_two : bat_bit start.buffer_bat 2 ≡ 1 =
          bat_bit-fill (s.disk (sector s 1)) s.buffer_bat 2 (omega arith)
          ∙ reserved 2 (omega arith) in
        let not_directory : (b : ℕ)
            → b < 4096
            → bat_bit start.buffer_bat b ≡ 0
            → sector ready b ≢ sector ready 2 =
          λ b h z g. omega (
            arith,
            z,
            bit_two,
            ap (bat_bit start.buffer_bat) (sector-injective ready b 2 room h (omega arith) g),
          ) in
        let (s', g, w) =
          store-Stored size index ready ok apart beside
            (λ g.
              not_directory p (omega (arith, f.inside, small)) f.free
                (ap (sector ready) (sym entry_at) ∙ g))
            (λ j h g.
              let k : j < blocks_for size = omega (arith, same) in
              not_directory (block inode j) (low j k) (f.all_free j k) g) in
        (s', g, subst (λ t. Stored t p ready s') same (subst (λ t. Stored m t ready s') entry_at w))

    made : Returns (ends (create_at filename (pos size) (some index) s)) (Creates s filename n size)
    made =
        let (s', g, w) = stores in
        let free : bat_bit (s.disk (sector s 1)) p ≡ 0 =
          sym (bat_bit-fill (s.disk (sector s 1)) s.buffer_bat p (omega (arith, f.inside, small)))
          ∙ f.free in
        let above = above-Reserved s p reserved free in
        rw (create_go filename size index s ready s' ok e g) (
          creates p refl free
            (λ fuel enough.
              tfs_open-filled s.buffer_md filename n index p fuel s' short in_block
                (omega (arith, f.inside, small)) l unused (λ k h. rw w.startblock (w.directory k h))
                (λ a b. ap (λ t. t a b) w.fails ∙ ok a b) enough)
            (stored-IsFile ready s' p size start.buffer_bat small room fits above f w)
            (stored-zero ready s' p size start.buffer_bat small room fits above f w)
            (λ q h a b used.
              stored-untouched ready s' p size start.buffer_bat small room fits above f w q h a b
                (bat_bit-fill (s.disk (sector s 1)) s.buffer_bat q h ∙ used)))

  pub create_at-Creates :
      Returns (ends (create_at filename (pos size) (some index) s)) (Creates s filename n size)
  create_at-Creates = elim (allocate-Allocates size index start small (omega arith)) [
    | no_space md inode bat e ↦ rw (create_stop filename size index s _ ok e) (refuses refl refl)
    | allocated p inode bat e f ↦
        made p inode bat e (
          subst (λ t. NewFile start.buffer_bat inode p size t s.totalblocks) (num_blocks-pos size)
            f)
  ]
