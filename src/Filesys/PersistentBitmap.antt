-- ===== src/Filesys/PersistentBitmap.antt =====
-- filesys/pbitmap.h and pbitmap.cc: a bitmap whose words are kept in a file.
mod Tests
use nach_os.Base.{
  ℕ, ◌+◌, ◌-◌, ◌*◌, ◌/◌, ◌%◌, ◌^◌, ◌≤◌, ◌<◌, ◌≡◌, ◌≢◌, refl, ap, ◌∙◌, sym, subst, List, Result, ok,
  ◌>>=◌, length, All, All-of_get_or, overwrite, overwrite-all, tabulate, min, arith, if◌then◌else◌,
  ltb,
}
use nach_os.Base.Bytes.{words_bytes, bytes_words, bytes_words-words_bytes, length-words_bytes}
use nach_os.Bitmap.{Bitmap, div_round_up, word_at}
use nach_os.Bitmap
use nach_os.Bitmap.View.{IsValid}
use nach_os.Filesys.Disk.{Disk}
use nach_os.Filesys.OpenFile.{OpenFile}
use nach_os.Filesys.OpenFile
use nach_os.Filesys.OpenFile.View.{sector_at, byte_at, IsFile, IsFormatted}
use nach_os.Filesys.OpenFile.Reading.{read_at_lem}
use nach_os.Filesys.OpenFile.WriteAt.{Written, Written-tabulate, write_at_lem}
use nach_os.Bitmap.Search.{new_lem}

-- FetchFrom: what is read replaces that much of the map.
pub fetch_from : Disk → OpenFile → Bitmap → Result Bitmap
fetch_from disk file b = do
  (_, bytes) ← OpenFile.read_at disk file (b.num_words * 4) 0
  ok (record b { words = bytes_words (overwrite (words_bytes b.words) 0 bytes) })

-- The constructor with a file.
pub of_file : Disk → OpenFile → ℕ → Result Bitmap
of_file disk file num_items = Bitmap.new num_items >>= fetch_from disk file

pub write_back : (ℕ → ℕ) → Disk → OpenFile → Bitmap → Result Disk
write_back garbage disk file b = do
  (_, disk') ← OpenFile.write_at garbage disk file (words_bytes b.words) (b.num_words * 4) 0
  ok disk'

-- The file holds the words of the bitmap.
abbrev pub HoldsBits : Disk → OpenFile → Bitmap → Type 0
HoldsBits disk file b = tabulate (byte_at disk file.hdr) 0 (b.num_words * 4) ≡ words_bytes b.words

words_fit : {b : Bitmap} → IsValid b → All (λ w. w < 2 ^ 32) b.words
words_fit {b} v = All-of_get_or (λ w. w < 2 ^ 32) b.words 0 (λ k _. v.fits k)

-- A bitmap constructed from a file that holds a well-formed one, of the same size, is that one.
pub of_file_lem :
    (disk : Disk) (file : OpenFile) (b : Bitmap)
    → IsFile file.hdr
    → IsFormatted disk
    → IsValid b
    → 0 < b.num_bits
    → file.hdr.num_bytes ≡ b.num_words * 4
    → HoldsBits disk file b
    → of_file disk file b.num_bits ≡ ok b
unfolding of_file fetch_from
of_file_lem disk file b v fm valid some_bits size holds =
    let (b0, e, valid0, same, _) = new_lem b.num_bits some_bits in
    let words : b0.num_words ≡ b.num_words =
      valid0.sized ∙ ap (λ n. div_round_up n 32) same ∙ sym valid.sized in
    let some_words : 0 < b.num_words = ground (arith, valid.sized) in
    let whole : min (b.num_words * 4) (file.hdr.num_bytes - 0) ≡ b.num_words * 4 = omega arith in
    rw
      (
        e,
        words,
        read_at_lem disk file (b.num_words * 4) 0 v fm (omega arith) (omega arith)
            (omega (arith, v.covered, v.direct)),
        whole,
        holds,
        overwrite-all (words_bytes b0.words) (words_bytes b.words) 0 (
            omega (
              arith,
              length-words_bytes b0.words,
              length-words_bytes b.words,
              valid.stored,
              valid0.stored,
              words,
            )),
        bytes_words-words_bytes b.words (words_fit valid),
      )
      (λ i. ok (record b { num_bits = same i }))

-- WriteBack leaves the file holding the bitmap, and every sector that is not the file's as it was.
pub write_back_lem :
    (garbage : ℕ → ℕ) (disk : Disk) (file : OpenFile) (b : Bitmap)
    → IsFile file.hdr
    → IsFormatted disk
    → IsValid b
    → 0 < b.num_words
    → file.hdr.num_bytes ≡ b.num_words * 4
    → (disk' : Disk) × (write_back garbage disk file b ≡ ok disk')
      × IsFormatted disk'
      × HoldsBits disk' file b
      × ((s : ℕ)
          → ((i : ℕ) → i < file.hdr.num_sectors → sector_at file.hdr i ≢ s)
          → disk' s ≡ disk s)
unfolding write_back
write_back_lem garbage disk file b v fm valid some_words size =
    let n = b.num_words * 4 in
    let l : length (words_bytes b.words) ≡ n =
      omega (arith, length-words_bytes b.words, valid.stored) in
    let whole : min n (file.hdr.num_bytes - 0) ≡ n = omega arith in
    let (disk', e, w) =
      write_at_lem garbage disk file (words_bytes b.words) n 0 v fm (omega arith) (omega arith)
        (omega (arith, v.covered, v.direct)) (omega (arith, l)) in
    let w' = subst (λ k. Written file.hdr (words_bytes b.words) k 0 disk disk') (whole ∙ sym l) w in
    (
      disk',
      rw e,
      w.formatted,
      ap (tabulate (byte_at disk' file.hdr) 0) (sym l)
          ∙ Written-tabulate disk disk' file.hdr (words_bytes b.words) 0 (omega (arith, l)) w',
      w.others,
    )
