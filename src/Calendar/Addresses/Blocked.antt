-- ===== src/Calendar/Addresses/Blocked.antt =====
-- isBlockedIpv4 against the list of the reserved ranges.
use hostrepository.Base.{
  ℕ, ◌+◌, ◌*◌, ◌/◌, ◌<◌, ◌≡◌, refl, ap, ◌∙◌, Bool, true, false, not, ◌&&◌, ◌||◌, some, List, [],
  ◌∷◌, ◌++◌, ◌==◌, leb, ltb, all, all_first, all_rest, not-true, any, if◌then◌else◌, arith,
}
use hostrepository.Base.Text.{Text}
use hostrepository.Calendar.Dates.{digit}
use hostrepository.Calendar.Ical.{number_from}
use hostrepository.Calendar.Addresses.{
  split, add_to_part, octet, parse_parts, parse_ipv4, is_blocked_parts, is_blocked_octets,
  is_blocked_ipv4,
}

-- A number below 256 in decimal, without leading zeros.
abbrev pub show_octet : ℕ → Text
show_octet n =
    if ltb n 10
    then digit n ∷ []
    else if ltb n 100
    then digit (n / 10) ∷ digit n ∷ []
    else digit (n / 100) ∷ digit (n / 10) ∷ digit n ∷ []

abbrev pub dotted : ℕ → ℕ → ℕ → ℕ → Text
dotted a b c d =
    show_octet a ++ (46 ∷ (show_octet b ++ (46 ∷ (show_octet c ++ (46 ∷ show_octet d)))))

-- The 32-bit number of an address.
abbrev pub address_number : ℕ → ℕ → ℕ → ℕ → ℕ
address_number a b c d = a * 16777216 + b * 65536 + c * 256 + d

-- A range of addresses: the first, and how many.
abbrev pub covers : ℕ → ℕ × ℕ → Bool
covers n (base, size) = leb base n && ltb n (base + size)

-- 0/8, 10/8, 127/8, 100.64/10, 169.254/16, 172.16/12, 192.0/16, 192.168/16, 192.0.2/24, 198.18/15,
-- 198.51.100/24, 203.0.113/24 and 224/3.
abbrev pub reserved_ranges : List (ℕ × ℕ)
reserved_ranges =
    (0, 16777216)
    ∷ (167772160, 16777216)
    ∷ (2130706432, 16777216)
    ∷ (1681915904, 4194304)
    ∷ (2851995648, 65536)
    ∷ (2886729728, 1048576)
    ∷ (3221225472, 65536)
    ∷ (3232235520, 65536)
    ∷ (3221225984, 256)
    ∷ (3323068416, 131072)
    ∷ (3325256704, 256)
    ∷ (3405803776, 256)
    ∷ (3758096384, 536870912)
    ∷ []

abbrev has_no_dot : Text → Bool
has_no_dot = all (λ c. not (c == 46))

split_part : (s t : Text) → has_no_dot s ≡ true → split 46 (s ++ (46 ∷ t)) ≡ s ∷ split 46 t
unfolding split
split_part [] t h = refl
split_part (c ∷ s) t h =
    let other = not-true (c == 46) (all_first (λ (d : ℕ). not (d == 46)) c s h) in
    rw other (ap (add_to_part c) (split_part s t (all_rest (λ (d : ℕ). not (d == 46)) c s h)))

split_last : (s : Text) → has_no_dot s ≡ true → split 46 s ≡ s ∷ []
unfolding split
split_last [] h = refl
split_last (c ∷ s) h =
    let other = not-true (c == 46) (all_first (λ (d : ℕ). not (d == 46)) c s h) in
    rw other (ap (add_to_part c) (split_last s (all_rest (λ (d : ℕ). not (d == 46)) c s h)))

show_octet-plain : (n : ℕ) → has_no_dot (show_octet n) ≡ true
show_octet-plain n = ground arith

octet-show_octet : (n : ℕ) → n < 256 → octet (show_octet n) ≡ some n
unfolding number_from
octet-show_octet n h = ground arith

or_assoc : (x y z : Bool) → (x || y || z) ≡ (x || (y || z))
or_assoc true y z = refl
or_assoc false y z = refl

or-false : (x : Bool) → (x || false) ≡ x
or-false true = refl
or-false false = refl

module _ (a b c d : ℕ) (ha : a < 256) (hb : b < 256) (hc : c < 256) (hd : d < 256) where
  this_network : (a == 0) ≡ covers (address_number a b c d) (0, 16777216)
  this_network = ground arith

  private_10 : (a == 10) ≡ covers (address_number a b c d) (167772160, 16777216)
  private_10 = ground arith

  loopback : (a == 127) ≡ covers (address_number a b c d) (2130706432, 16777216)
  loopback = ground arith

  shared :
      (a == 100 && leb 64 b && leb b 127) ≡ covers (address_number a b c d) (1681915904, 4194304)
  shared = ground arith

  link_local : (a == 169 && b == 254) ≡ covers (address_number a b c d) (2851995648, 65536)
  link_local = ground arith

  private_172 :
      (a == 172 && leb 16 b && leb b 31) ≡ covers (address_number a b c d) (2886729728, 1048576)
  private_172 = ground arith

  protocol : (a == 192 && b == 0) ≡ covers (address_number a b c d) (3221225472, 65536)
  protocol = ground arith

  private_192 : (a == 192 && b == 168) ≡ covers (address_number a b c d) (3232235520, 65536)
  private_192 = ground arith

  test_net_1 : (a == 192 && b == 0 && c == 2) ≡ covers (address_number a b c d) (3221225984, 256)
  test_net_1 = ground arith

  benchmark :
      (a == 198 && (b == 18 || b == 19)) ≡ covers (address_number a b c d) (3323068416, 131072)
  benchmark = ground arith

  test_net_2 : (a == 198 && b == 51 && c == 100) ≡ covers (address_number a b c d) (3325256704, 256)
  test_net_2 = ground arith

  test_net_3 : (a == 203 && b == 0 && c == 113) ≡ covers (address_number a b c d) (3405803776, 256)
  test_net_3 = ground arith

  multicast : (leb 224 a) ≡ covers (address_number a b c d) (3758096384, 536870912)
  multicast = ground arith

  parts_blocked :
      is_blocked_parts (a ∷ b ∷ c ∷ d ∷ []) ≡ any (covers (address_number a b c d)) reserved_ranges
  parts_blocked =
      rw
        (
          this_network, private_10, loopback, shared, link_local, private_172, test_net_1, protocol,
          private_192, benchmark, test_net_2, test_net_3, multicast,
        )
        (simp (or_assoc, or-false) refl)

  split-dotted :
      split 46 (dotted a b c d) ≡ show_octet a ∷ show_octet b ∷ show_octet c ∷ show_octet d ∷ []
  split-dotted =
      split_part (show_octet a) (show_octet b ++ (46 ∷ (show_octet c ++ (46 ∷ show_octet d))))
        (show_octet-plain a)
      ∙ ap (λ (parts : List Text). show_octet a ∷ parts)
          (split_part (show_octet b) (show_octet c ++ (46 ∷ show_octet d)) (show_octet-plain b)
            ∙ ap (λ (parts : List Text). show_octet b ∷ parts)
                (split_part (show_octet c) (show_octet d) (show_octet-plain c)
                  ∙ ap (λ (parts : List Text). show_octet c ∷ parts)
                      (split_last (show_octet d) (show_octet-plain d))))

  parse_ipv4-dotted : parse_ipv4 (dotted a b c d) ≡ some (a ∷ b ∷ c ∷ d ∷ [])
  unfolding parse_ipv4
  parse_ipv4-dotted =
      ap parse_parts split-dotted
      ∙ rw (octet-show_octet a ha) (
          rw (octet-show_octet b hb) (rw (octet-show_octet c hc) (rw (octet-show_octet d hd) refl)))

-- The decimal text of an address is blocked exactly when its 32-bit number lies in one of the
-- reserved ranges.
pub is_blocked_ipv4-dotted :
    (a b c d : ℕ)
    → a < 256
    → b < 256
    → c < 256
    → d < 256
    → is_blocked_ipv4 (dotted a b c d) ≡ any (covers (address_number a b c d)) reserved_ranges
unfolding is_blocked_ipv4
is_blocked_ipv4-dotted a b c d ha hb hc hd =
    ap is_blocked_octets (parse_ipv4-dotted a b c d ha hb hc hd) ∙ parts_blocked a b c d ha hb hc hd
