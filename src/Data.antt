-- ===== src/Data.antt =====
-- The contents of files: `fs_read`, `fs_write` and `fs_shrink`. Positions and sizes are taken at 0
-- and above; the arithmetic on them is exact, as it is in C below 2^31.
pub mod ReadBack
pub mod Isolation
use opperating_system_practi.Base.{
  ℕ, ◌+◌, ◌-◌, ◌*◌, Option, none, some, List, [], ltb, leb, if◌then◌else◌, set, length,
}
use opperating_system_practi.Base.Int.{ℤ}
use opperating_system_practi.Types.{Fs, FileEntry, block_size}
use opperating_system_practi.Disk.{save_metadata, fread, fwrite}
use opperating_system_practi.Blocks.{allocate_blocks, free_blocks, blocks_for}
use opperating_system_practi.Files.{descriptor, file_at}

-- `some bytes` stands for the count of `bytes` as result, and `bytes` in the buffer.
unfoldable pub read_extent : Option ℕ → ℕ → ℕ → Fs → Option (List ℕ)
read_extent none position n s = some []
read_extent (some start) position n s = some (fread s.disk (start * block_size + position) n)

unfoldable pub read_file : FileEntry → ℕ → ℕ → Fs → Option (List ℕ)
read_file file position n s =
    if leb file.size position
    then some []
    else read_extent file.start_block position
        (if ltb file.size (position + n) then file.size - position else n) s

unfoldable pub read_found : Option ℕ → ℕ → ℕ → Fs → Option (List ℕ)
read_found none position n s = none
read_found (some idx) position n s = read_file (file_at s idx) position n s

unfoldable pub fs_read : ℤ → ℕ → ℕ → Fs → Option (List ℕ)
unfolding read_found read_file read_extent descriptor
fs_read fd position n s = read_found (descriptor s fd) position n s

abbrev pub put_file : ℕ → FileEntry → Fs → Fs
put_file idx f s = record s { file_table = set s.file_table idx f }

-- The first part of `fs_write`: the entry gets the blocks that it needs, `none` if there are none.
unfoldable pub reserve_first : ℕ → ℕ → FileEntry → Fs × Option ℕ → Fs × Option ℕ
reserve_first idx needed file (s, none) = (s, none)
reserve_first idx needed file (s, some start) =
    (put_file idx (record file { start_block = some start; block_count = needed }) s, some start)

unfoldable pub reserve_more : ℕ → ℕ → FileEntry → ℕ → Fs × Option ℕ → Fs × Option ℕ
reserve_more idx needed file start (s, none) = (s, none)
reserve_more idx needed file start (s, some new_blocks) =
    (put_file idx (record file { block_count = needed }) s, some start)

unfoldable pub reserve_in : Option ℕ → ℕ → ℕ → FileEntry → Fs → Fs × Option ℕ
reserve_in none idx needed file s = reserve_first idx needed file (allocate_blocks needed s)
reserve_in (some start) idx needed file s =
    if ltb file.block_count needed
    then reserve_more idx needed file start (allocate_blocks (needed - file.block_count) s)
    else (s, some start)

-- The result is the first block of the file.
unfoldable pub reserve : ℕ → ℕ → FileEntry → Fs → Fs × Option ℕ
unfolding reserve_in reserve_first reserve_more
reserve idx needed file s = reserve_in file.start_block idx needed file s

-- The second part: the bytes, the size and the time.
unfoldable pub store : ℕ → ℕ → List ℕ → ℕ → Fs × Option ℕ → Fs × Option ℕ
store idx position buffer now (s, none) = (s, none)
store idx position buffer now (s, some start) =
    let file = file_at s idx in
    let reached = position + length buffer in
    (
      save_metadata (
          put_file idx
            (record file {
              size = if ltb file.size reached then reached else file.size;
              modify_time = now;
            })
            (record s { disk = fwrite s.disk (start * block_size + position) buffer })),
      some (length buffer),
    )

unfoldable pub write_file : ℕ → ℕ → List ℕ → ℕ → Fs → Fs × Option ℕ
write_file idx position buffer now s =
    store idx position buffer now
      (reserve idx (blocks_for (position + length buffer)) (file_at s idx) s)

unfoldable pub write_found : Option ℕ → ℕ → List ℕ → ℕ → Fs → Fs × Option ℕ
write_found none position buffer now s = (s, none)
write_found (some idx) position buffer now s = write_file idx position buffer now s

unfoldable pub fs_write : ℤ → ℕ → List ℕ → ℕ → Fs → Fs × Option ℕ
unfolding write_found write_file store reserve
fs_write fd position buffer now s = write_found (descriptor s fd) position buffer now s

-- `file->start_block + new_blocks`, where a start of -1 counts as it does in C
abbrev pub block_after : Option ℕ → ℕ → ℕ
block_after none n = n - 1
block_after (some start) n = start + n

unfoldable pub shrink_file : ℕ → ℕ → ℕ → Fs → Fs × Option ℕ
shrink_file idx new_size now s =
    let file = file_at s idx in
    let new_blocks = blocks_for new_size in
    if leb file.size new_size
    then (s, some 0)
    else if ltb new_blocks file.block_count
    then (
      save_metadata (
          put_file idx
            (record file { block_count = new_blocks; size = new_size; modify_time = now })
            (free_blocks (block_after file.start_block new_blocks) (file.block_count - new_blocks)
              s)),
      some 0,
    )
    else (
      save_metadata (put_file idx (record file { size = new_size; modify_time = now }) s),
      some 0,
    )

unfoldable pub shrink_found : Option ℕ → ℕ → ℕ → Fs → Fs × Option ℕ
shrink_found none new_size now s = (s, none)
shrink_found (some idx) new_size now s = shrink_file idx new_size now s

unfoldable pub fs_shrink : ℤ → ℕ → ℕ → Fs → Fs × Option ℕ
unfolding shrink_found shrink_file
fs_shrink fd new_size now s = shrink_found (descriptor s fd) new_size now s
