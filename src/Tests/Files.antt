-- ===== src/Tests/Files.antt =====
-- Open inodes, names and descriptors at concrete inputs.
use pintos_nightmare.Base.{
  replicate, ℕ, ◌<◌, ◌≡◌, refl, ◌≢◌, true, false, none, some, List, [], ◌∷◌, arith,
}
use pintos_nightmare.InodeTable.{
  OpenInode, FileSys, Env, sector_of, inode_open, inode_close, find, open_found, change,
  inode_reopen, give_back, drop_inode,
}
use pintos_nightmare.InodeTable.Laws.{IsTable}
use pintos_nightmare.InodeTable.Keep.{reopening, Touch-IsTable}
use pintos_nightmare.Directory.{
  dir_remove, same_name, lookup, lookup_from, free_slot, dir_add, filesys_open, dir_open_root,
  dir_open, dir_lookup, look_in, dir_close, file_open,
}
use pintos_nightmare.Directory.Remove.{IsUnique, dir_remove-open}
use pintos_nightmare.Directory.Laws.{dir_add_keeps_lock, dir_add-Added}
use pintos_nightmare.Syscall.{Files, open_file, get_file, find_fd, close_file, close_found, drop_fd}
use pintos_nightmare.Syscall.Descriptors.{
  IsFiles, get_file-open_file, Calls, stop, call, closes, open_file-full,
}

abbrev good : Env
good = record {
  inode_ok = true;
  disk_inode_ok = true;
  dir_ok = true;
  file_ok = true;
  write_ok = true;
  entry_ok = true;
}

abbrev bad : Env
bad = record {
  inode_ok = false;
  disk_inode_ok = true;
  dir_ok = true;
  file_ok = true;
  write_ok = true;
  entry_ok = true;
}

abbrev data_inode : OpenInode
data_inode = record {
  sector = 5;
  open_cnt = 2;
  removed = false;
  info = record { start = 6; length = 100 };
}

-- A root directory with a file `a` (97) in sector 5, which is open, and a free slot.
abbrev fs : FileSys
fs = record {
  free_map = record {
    map = record { bit_cnt = 8; bits = replicate 32 true ∷ [] };
    file_open = true;
  };
  disk = λ s. sector_of (record { start = 6; length = 100 });
  open_inodes = data_inode ∷ [];
  entries =
      record { inode_sector = 5; name = 97 ∷ []; in_use = true }
      ∷ record { inode_sector = 0; name = []; in_use = false }
      ∷ [];
  filesys_lock = false;
  dir_lock = false;
}

fs-IsTable : IsTable fs.open_inodes
fs-IsTable = record { distinct = (refl, tt); used = (omega arith, tt) }

not_open : find 9 fs.open_inodes ≡ none
unfolding find
not_open = refl

Touch-IsTable_example : IsTable (inode_reopen 5 fs).open_inodes
Touch-IsTable_example = Touch-IsTable fs (inode_reopen 5 fs) (reopening 5 refl) fs-IsTable

dir_add_keeps_lock_example :
    (fs' : FileSys) × (dir_add good [] 7 fs ≡ some (fs', false))
    × (fs'.dir_lock ≡ true)
    × ((env' : Env) (n : List ℕ) (s : ℕ) → dir_add env' n s fs' ≡ none)
dir_add_keeps_lock_example = dir_add_keeps_lock good [] 7 fs refl refl

no_b : lookup (98 ∷ []) fs.entries ≡ none
unfolding lookup_from same_name
no_b = refl

room : free_slot 0 fs.entries < 2
unfolding free_slot
room = omega arith

dir_add-Added_example :
    (fs' : FileSys) × (dir_add good (98 ∷ []) 7 fs ≡ some (fs', true))
    × (lookup (98 ∷ []) fs'.entries
        ≡ some (record { inode_sector = 7; name = 98 ∷ []; in_use = true }, free_slot 0 fs.entries))
    × ((other : List ℕ)
        → same_name other (98 ∷ []) ≡ false
        → lookup other fs'.entries ≡ lookup other fs.entries)
    × (fs'.dir_lock ≡ false)
dir_add-Added_example = dir_add-Added good (98 ∷ []) 7 fs refl refl no_b refl room

-- A process with descriptor 2 open on sector 5
abbrev one_file : Files
one_file = record {
  next_fd = 3;
  file_descriptors = record { fd = 2; file = record { inode = 5; pos = 10 } } ∷ [];
}

one_file-IsFiles : IsFiles one_file
one_file-IsFiles = record {
  distinct = (refl, tt);
  given = λ fd i. ground (arith, i);
  low = omega arith;
  high = omega arith;
}

-- The file system with one opener more of sector 5
abbrev after_open : FileSys
after_open = record fs { open_inodes = record data_inode { open_cnt = 3 } ∷ [] }

opens_a : filesys_open good (97 ∷ []) fs ≡ some (after_open, some 5)
unfolding filesys_open dir_open_root dir_open inode_open open_found find dir_lookup look_in
    lookup_from same_name inode_reopen change dir_close inode_close give_back drop_inode file_open
opens_a = refl

get_file-open_file_example :
    (p' : Files) × (open_file good (97 ∷ []) one_file fs ≡ some (p', after_open, some 3))
    × (get_file 3 p' ≡ some (record { inode = 5; pos = 0 }))
    × ((fd : ℕ) → fd ≢ 3 → get_file fd p' ≡ get_file fd one_file)
    × IsFiles p'
    × (p'.next_fd ≡ 4)
get_file-open_file_example =
    get_file-open_file 5 one_file one_file-IsFiles (omega arith) good (97 ∷ []) fs after_open
      opens_a

abbrev spent : Files
spent = record { next_fd = 130; file_descriptors = [] }

-- A process that was given all 128 descriptors, and has closed all but number 2, which it closes
abbrev nearly_spent : Files
nearly_spent = record {
  next_fd = 130;
  file_descriptors = record { fd = 2; file = record { inode = 5; pos = 0 } } ∷ [];
}

closes_2 :
    close_file 2 nearly_spent fs
    ≡ some (spent, record fs { open_inodes = record data_inode { open_cnt = 1 } ∷ [] })
unfolding close_file close_found get_file find_fd drop_fd inode_close find change
closes_2 = refl

calls : Calls nearly_spent spent
calls = call stop (closes 2 fs _ closes_2)

open_file-full_example : open_file good (97 ∷ []) spent fs ≡ some (spent, fs, none)
open_file-full_example = open_file-full good (97 ∷ []) fs refl calls

has_2 : get_file 2 one_file ≡ some (record { inode = 5; pos = 10 })
unfolding get_file find_fd
has_2 = refl

closes_5 :
    inode_close 5 fs ≡ some (record fs { open_inodes = record data_inode { open_cnt = 1 } ∷ [] })
unfolding inode_close find change
closes_5 = refl

a_named :
    lookup (97 ∷ []) fs.entries
    ≡ some (record { inode_sector = 5; name = 97 ∷ []; in_use = true }, 0)
unfolding lookup_from same_name
a_named = refl

open_5 : find 5 fs.open_inodes ≡ some data_inode
unfolding find
open_5 = refl

fs-IsUnique : IsUnique fs.entries
unfolding lookup_from
fs-IsUnique = (λ u k. refl, (λ u k. refl, tt))

dir_remove-open_example :
    (fs' : FileSys) × (dir_remove good (97 ∷ []) fs ≡ some (fs', true))
    × (lookup (97 ∷ []) fs'.entries ≡ none)
    × ((other : List ℕ)
        → same_name other (97 ∷ []) ≡ false
        → lookup other fs'.entries ≡ lookup other fs.entries)
    × (find 5 fs'.open_inodes ≡ some (record data_inode { removed = true }))
    × (fs'.free_map ≡ fs.free_map)
    × (fs'.disk ≡ fs.disk)
    × (fs'.filesys_lock ≡ false)
    × (fs'.dir_lock ≡ false)
dir_remove-open_example =
    dir_remove-open good (97 ∷ []) (record { inode_sector = 5; name = 97 ∷ []; in_use = true }) 0 fs
      data_inode refl refl refl fs-IsTable.used fs-IsUnique a_named open_5
