-- ===== src/Net.antt =====
-- The addresses and the decimal numbers of the standard library, as far as the program reads or
-- writes them as text.
mod Decimal
mod Numerals
mod Address
mod Characters
unfoldable pub use Decimal.{show}
pub use Numerals.{parse_unsigned-show, length-show}
pub use Decimal.{show-is_ascii_digit, show-ne_nil}
pub use Address.{IpAddr, v4, v6, is_ipv6}
unfoldable pub use Address.{parse_v4, parse_v6, parse_ip, show_v4, show_v6, show_ip}
pub use Characters.{is_address_char, all_implies, show_ip-is_address_char}
