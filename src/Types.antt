-- ===== src/Types.antt =====
-- ip6/lib/types.h: addresses, packets and commands.
pub mod Codec
use blue_bridge.Prelude.{ℕ, ◌^◌, ◌<◌, List}

-- struct ip6_memaddr: an IPv6 address read as a subnet, a command, its argument and a pointer.
pub record Memaddr : Type 0 where
  pub subid : ℕ
  pub cmd : ℕ
  pub args : ℕ
  pub paddr : ℕ

-- struct ip6_memaddr_block
pub record MemaddrBlock : Type 0 where
  pub memaddr : Memaddr
  pub length : ℕ
  pub offset : ℕ

-- struct pkt_rqst, with its data in place of a pointer and a length
pub record PktRqst : Type 0 where
  pub dst_addr : Memaddr
  pub dst_port : ℕ
  pub bytes : List ℕ

-- struct sockaddr_in6, its address read as an ip6_memaddr
pub record Sockaddr : Type 0 where
  pub addr : Memaddr
  pub port : ℕ

-- BLOCK_SIZE
abbrev pub block_size : ℕ
block_size = 1

abbrev pub pointer_size : ℕ
pointer_size = 8

abbrev pub alloc_cmd : ℕ
alloc_cmd = 1

abbrev pub write_cmd : ℕ
write_cmd = 2

abbrev pub read_cmd : ℕ
read_cmd = 3

abbrev pub free_cmd : ℕ
free_cmd = 4

abbrev pub alloc_bulk_cmd : ℕ
alloc_bulk_cmd = 5

abbrev pub write_bulk_cmd : ℕ
write_bulk_cmd = 6

abbrev pub read_bulk_cmd : ℕ
read_bulk_cmd = 7

abbrev pub trim_cmd : ℕ
trim_cmd = 8

-- The fields fit their widths.
pub record IsMemaddr (a : Memaddr) : Type 0 where
  pub subid : a.subid < 2 ^ 16
  pub cmd : a.cmd < 2 ^ 16
  pub args : a.args < 2 ^ 32
  pub paddr : a.paddr < 2 ^ 64
