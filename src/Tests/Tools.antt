-- ===== src/Tests/Tools.antt =====
-- The USB gadget program on concrete inputs.
use psdk_orangepi.Prelude.{◌≡◌, refl, true, none, some, [], ◌∷◌, ◌++◌, length, take, drop}
use psdk_orangepi.Prelude.Int.{pos}
use psdk_orangepi.Prelude.Text.{codes}
use psdk_orangepi.Proto.{snprintf}
use psdk_orangepi.Tools.Ffs.{
  le32, descriptors, strings, unbind, enable, setup, interrupted, event, ffs_main, ffs_dir,
}
use psdk_orangepi.Tools.Ffs.Ending.{whole_run, ffs_main-unbind}

-- The length field holds the size of the whole.
descriptors_size : take 4 (drop 4 descriptors) ≡ le32 (length descriptors)
descriptors_size = refl

strings_size : take 4 (drop 4 strings) ≡ le32 (length strings)
strings_size = refl

ffs_main-unbind_example :
    ffs_main none true true true
      (event enable ∷ interrupted ∷ event setup ∷ [] ++ event unbind ∷ [])
    ≡ (
      some (pos 0),
      whole_run
          (snprintf 256 (ffs_dir none ++ codes "/ep0")).text
          true
          true
          true
          (event enable ∷ interrupted ∷ event setup ∷ []),
    )
ffs_main-unbind_example =
    ffs_main-unbind none true true true (event enable ∷ interrupted ∷ event setup ∷ [])
