-- ===== src/LogWriter/Files.antt =====
-- The directory under its operations.
use gateway_core.Base.{◌≡◌, [], ◌∷◌, none, some, if◌then◌else◌, arith}
use gateway_core.Base.Bytes.{Bytes, same_bytes, same_bytes_iff}
use gateway_core.Proxy.Router.{lookup}
use gateway_core.LogWriter.{File, Directory, remove_file, put_file, rename_file}

pub lookup-remove_file :
    (k j : Bytes) (d : Directory)
    → lookup k (remove_file j d) ≡ (if same_bytes j k then none else lookup k d)
unfolding lookup remove_file
lookup-remove_file k j [] = ground arith
lookup-remove_file k j ((i, f) ∷ d) =
    ground
      (arith, lookup-remove_file k j d, same_bytes_iff i j, same_bytes_iff i k, same_bytes_iff j k)

pub lookup-put_file :
    (k j : Bytes) (f : File) (d : Directory)
    → lookup k (put_file j f d) ≡ (if same_bytes j k then some f else lookup k d)
unfolding lookup
lookup-put_file k j f d = ground (arith, lookup-remove_file k j d)

pub lookup-rename_file :
    (k old new : Bytes) (f : File) (d : Directory)
    → lookup old d ≡ some f
    → lookup k (rename_file old new d)
      ≡ (if same_bytes new k then some f else if same_bytes old k then none else lookup k d)
unfolding rename_file
lookup-rename_file k old new f d e =
    rw (rename_file, e, lookup-put_file k new f (remove_file old d), lookup-remove_file k old d)
