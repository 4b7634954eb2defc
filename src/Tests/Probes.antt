-- ===== src/Tests/Probes.antt =====
-- The probe on a query for example.com and on a reply that leads with a CNAME.
use sys_amneziawg.Common.{ℕ, ◌≤◌, ◌≡◌, refl, some, List, [], ◌∷◌, length, arith, All, IsByte}
use sys_amneziawg.Probe.{
  encode_labels, encode_name, root, put_label, dns_query, ip_packet, build_dns, address, parse_dns,
}
use sys_amneziawg.Obfuscation.Parse.{cut_at}
use sys_amneziawg.Probe.Safety.{IsSafe, parse_dns-IsSafe}
use sys_amneziawg.Probe.Query.{IsChecked, build_dns-IsChecked}
use sys_amneziawg.Probe.Reply.{Other, IsOther, message, reply, parse_dns-reply}

-- "a.io"
abbrev host : List ℕ
host = b'a' ∷ b'.' ∷ b'i' ∷ b'o' ∷ []

abbrev encoded : List ℕ
encoded = 1 ∷ b'a' ∷ 2 ∷ b'i' ∷ b'o' ∷ 0 ∷ []

host_encoded : encode_name 20 host ≡ some encoded
unfolding encode_name encode_labels put_label root cut_at
host_encoded = refl

-- 10.0.0.2 asks 1.1.1.1.
abbrev client : ℕ
client = 33554442

abbrev server : ℕ
server = 16843009

abbrev query : List ℕ
query = ip_packet client server 40000 7 (dns_query 7 encoded)

query_built : build_dns 64 client server 40000 7 host ≡ some query
unfolding build_dns encode_name encode_labels put_label root cut_at
query_built = refl

host_bytes : All IsByte host
host_bytes = ground arith

build_dns_example : (length query ≤ 64) × IsChecked client server query
build_dns_example =
    build_dns-IsChecked 64 client server 40000 7 host query host_bytes (omega arith) query_built

parse_dns-IsSafe_example : IsSafe (parse_dns server 40000 7 query)
parse_dns-IsSafe_example = parse_dns-IsSafe server 40000 7 query

abbrev alias : Other
alias = record { type_code = 5; content = 192 ∷ 12 ∷ [] }

abbrev found : List ℕ
found = 93 ∷ 184 ∷ 216 ∷ 34 ∷ []

alias-IsOther : All IsOther (alias ∷ [])
alias-IsOther = (
  record {
    type_fits = omega arith;
    no_address = λ e. omega (arith, e);
    content_fits = omega arith;
  },
  tt,
)

parse_dns_reply_example :
    parse_dns server 40000 7
      (reply server client 40000 9 0 0 (message 7 encoded (alias ∷ []) found []))
    ≡ address found
parse_dns_reply_example =
    parse_dns-reply server client 40000 9 0 0 7 20 host encoded found [] (alias ∷ []) (omega arith)
      (omega arith) (omega arith) host_encoded alias-IsOther (omega arith) refl (omega arith)
