-- ===== src/Eepfs/Tests.antt =====
-- Runs of drivers/fs/eepfs.c.
use avrix.Tree.{slash, equal_p, use_entry, segment, walk, skip_slash, open_path}
use avrix.Eepfs.{name_msg, name_sys, open_path, eepfs_open}
use avrix.Base.{◌≡◌, refl, some, ◌∷◌, ◌++◌}

open_message : eepfs_open (slash ∷ name_sys ++ (slash ∷ name_msg)) ≡ some 0
unfolding eepfs_open open_path skip_slash walk segment use_entry avrix.Tree.find_entry equal_p
open_message = refl
