-- ===== src/Romfs/Tests.antt =====
-- Runs of drivers/fs/romfs.c.
use avrix.Tree.{slash, equal_p, use_entry, segment, walk, skip_slash, open_path}
use avrix.Romfs.{name_readme, open_path, romfs_open}
use avrix.Base.{◌≡◌, refl, some, ◌∷◌}

open_readme : romfs_open (slash ∷ name_readme) ≡ some 1
unfolding romfs_open open_path skip_slash walk segment use_entry avrix.Tree.find_entry equal_p
open_readme = refl
