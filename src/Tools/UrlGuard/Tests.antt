-- ===== src/Tools/UrlGuard/Tests.antt =====
-- Runs of the guard on concrete URLs.
use edge_llm.Base.{◌≡◌, refl, true, false, bytes, arith}
use edge_llm.Tools.UrlGuard.{
  is_blocked_ipv4, host_from_url, is_blocked_host, is_blocked_lower, is_url_allowed, to_lower,
  parse_ipv4, after_userinfo, authority, after_scheme, strip_port, strip_brackets, is_blocked_name,
  is_blocked_ipv6,
}
use edge_llm.Tools.UrlGuard.Hosts.{OctetText, url_of, is_url_allowed_internal}

allows_public : is_url_allowed (bytes "https://Example.com:8443/x?y") ≡ true
unfolding is_url_allowed to_lower is_blocked_host host_from_url after_userinfo authority
    after_scheme strip_port strip_brackets is_blocked_lower is_blocked_name parse_ipv4
    is_blocked_ipv4 is_blocked_ipv6
allows_public = refl

blocks_metadata : is_url_allowed (bytes "http://u:p@169.254.169.254/latest") ≡ false
unfolding is_url_allowed to_lower is_blocked_host host_from_url after_userinfo authority
    after_scheme strip_port strip_brackets is_blocked_lower is_blocked_name parse_ipv4
    is_blocked_ipv4 is_blocked_ipv6
blocks_metadata = refl

-- Other ways to write an internal address.
allows_decimal_loopback : is_url_allowed (bytes "http://2130706433/") ≡ true
unfolding is_url_allowed to_lower is_blocked_host host_from_url after_userinfo authority
    after_scheme strip_port strip_brackets is_blocked_lower is_blocked_name parse_ipv4
    is_blocked_ipv4 is_blocked_ipv6
allows_decimal_loopback = refl

allows_mapped_loopback : is_url_allowed (bytes "http://[::ffff:127.0.0.1]/") ≡ true
unfolding is_url_allowed to_lower is_blocked_host host_from_url after_userinfo authority
    after_scheme strip_port strip_brackets is_blocked_lower is_blocked_name parse_ipv4
    is_blocked_ipv4 is_blocked_ipv6
allows_mapped_loopback = refl

is_url_allowed_internal_example :
    is_url_allowed (url_of (bytes "http") (bytes "10.0.0.255") (bytes ":80") (bytes "/a:b@c"))
    ≡ false
is_url_allowed_internal_example =
    is_url_allowed_internal (bytes "http") (bytes "10") (bytes "0") (bytes "0") (bytes "255")
      (bytes ":80") (bytes "/a:b@c") 10 0 0 255 (omega arith)
      (OctetText.two_digits {a = 1} {b = 0} (omega arith) (omega arith))
      (OctetText.one_digit {a = 0} (omega arith)) (OctetText.one_digit {a = 0} (omega arith))
      (OctetText.three_digits {a = 2} {b = 5} {c = 5} (omega arith) (omega arith) (omega arith)
        (omega arith))
      (refl, omega arith) refl refl
