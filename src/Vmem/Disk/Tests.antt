-- ===== src/Vmem/Disk/Tests.antt =====
-- A disk of four blocks over a file in memory (ip6/lib/vmem/disk.c).
use blue_bridge.Prelude.{ℕ, ◌≡◌, refl, some, [], ◌∷◌, length, arith, ◌>>=◌, ap, sym, some_injective}
use blue_bridge.Memory.{bytes_at, memcpy, Bytes}
use blue_bridge.Vmem.Disk.{FileSystem, IsRegular, Disk, disk_open, disk_read, disk_write}
use blue_bridge.Vmem.Disk.Paging.{IsOpen, disk_open-IsOpen, disk_read-write}

-- A file is its size and its bytes.
abbrev ram : FileSystem
ram = record {
  File = ℕ × Bytes;
  open_file = λ _. some (0, λ _. 0);
  ftruncate = λ n f. some (n, f.1);
  pread = λ n offset f. (n, bytes_at offset n f.1);
  pwrite = λ d offset f. (length d, (f.0, memcpy offset d f.1));
}

ram-IsRegular : IsRegular ram
ram-IsRegular = record {
  size = λ f. f.0;
  view = λ f. f.1;
  truncated = sized;
  reads = λ n offset f h. refl;
  writes = λ d offset f h. ((f.0, memcpy offset d f.1), refl, refl, λ x. refl);
}
  where
    sized : (n : ℕ) (f f' : ℕ × Bytes) → some (n, f.1) ≡ some f' → f'.0 ≡ n
    sized n f f' e = ap (λ (x : ℕ × Bytes). x.0) (sym (some_injective e))

abbrev four : Disk ram
four = record { file = (4, λ _. 0); block_size = 1; nblocks = 4 }

opened : disk_open ram 7 4 ≡ some four
unfolding disk_open
opened = refl

four-IsOpen : IsOpen ram ram-IsRegular 1 four × (four.nblocks ≡ 4)
four-IsOpen = disk_open-IsOpen ram ram-IsRegular 7 4 four (omega arith) opened

disk_read-write_example : (do d ← disk_write ram 2 (9 ∷ []) four; disk_read ram 2 d) ≡ some (9 ∷ [])
disk_read-write_example =
    disk_read-write ram ram-IsRegular 1 2 2 (9 ∷ []) four four-IsOpen.0 (omega arith) (omega arith)
      refl
