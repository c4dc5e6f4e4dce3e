-- ===== src/Net/Ip.antt =====
-- What internal/ipacl uses of package net/netip, on addresses as numbers. Parsing texts is an argument
-- of the definitions that need it.
use proxy_sentinel.Base.Text.{Text}
use proxy_sentinel.Base.{
  ℕ, ◌+◌, ◌-◌, ◌*◌, ◌/◌, ◌%◌, ◌^◌, ◌≡◌, ◌↔◌, Bool, true, false, ◌&&◌, [], arith, Eq, ◌==◌, nat_eq,
  list_eq, leb, if◌then◌else◌,
}

-- An IPv4 address, or an IPv6 address with its zone.
pub data Addr : Type 0 where
  v4 : ℕ → Addr
  v6 : ℕ → Text → Addr

addr_beq : Addr → Addr → Bool
addr_beq (v4 a) (v4 b) = a == b
addr_beq (v4 a) (v6 b z) = false
addr_beq (v6 a y) (v4 b) = false
addr_beq (v6 a y) (v6 b z) = a == b && y == z

pub addr_test : Addr → Addr → Bool
unfolding addr_beq
addr_test a b = addr_beq a b

pub addr_test_iff : (a b : Addr) → (addr_test a b ≡ true) ↔ (a ≡ b)
unfolding addr_test
addr_test_iff (v4 a) (v4 b) = ground arith
addr_test_iff (v4 a) (v6 b z) = ground arith
addr_test_iff (v6 a y) (v4 b) = ground arith
addr_test_iff (v6 a y) (v6 b z) = ground (arith, (list_eq {A = ℕ}).test_iff y z)

instance abbrev pub addr_eq : Eq Addr
addr_eq = record { test = addr_test; test_iff = addr_test_iff }

unfoldable pub is4 : Addr → Bool
is4 (v4 a) = true
is4 (v6 a z) = false

-- An IPv4-mapped IPv6 address becomes the IPv4 address.
unfoldable pub unmap : Addr → Addr
unmap (v4 a) = v4 a
unmap (v6 a z) = if a / 2 ^ 32 == 0xffff then v4 (a % 2 ^ 32) else v6 a z

-- netip.AddrFrom16(a.As16())
unfoldable pub as_mapped : Addr → Addr
as_mapped (v4 a) = v6 (0xffff * 2 ^ 32 + a) []
as_mapped (v6 a z) = v6 a []

pub record Prefix : Type 0 where
  pub addr : Addr
  pub bits : ℕ

mask : ℕ → ℕ → ℕ → ℕ
mask len bits a = a / 2 ^ (len - bits) * 2 ^ (len - bits)

unfoldable pub masked : Prefix → Prefix
unfolding mask
masked p = elim p.addr [
  | v4 a ↦ record { addr = v4 (mask 32 p.bits a); bits = p.bits }
  | v6 a z ↦ record { addr = v6 (mask 128 p.bits a) []; bits = p.bits }
]

same_front : ℕ → ℕ → ℕ → ℕ → Bool
same_front len bits a b = leb bits len && (a / 2 ^ (len - bits) == b / 2 ^ (len - bits))

covers_addr : Addr → ℕ → Addr → Bool
unfolding same_front
covers_addr (v4 p) bits (v4 a) = same_front 32 bits p a
covers_addr (v4 p) bits (v6 a z) = false
covers_addr (v6 p y) bits (v4 a) = false
covers_addr (v6 p y) bits (v6 a z) = z == [] && same_front 128 bits p a

-- Prefix.Contains: families do not mix, and an address with a zone is in no prefix.
unfoldable pub covers : Prefix → Addr → Bool
unfolding covers_addr
covers p a = covers_addr p.addr p.bits a
