-- ===== src/Edns/Opt.antt =====
-- src/edns.rs: the option codes of `mod opt`.
use recurse_x.Prelude.{ℕ}

abbrev pub llq : ℕ
llq = 1

abbrev pub ul : ℕ
ul = 2

abbrev pub nsid : ℕ
nsid = 3

abbrev pub dau : ℕ
dau = 5

abbrev pub dhu : ℕ
dhu = 6

abbrev pub n3u : ℕ
n3u = 7

abbrev pub ecs : ℕ
ecs = 8

abbrev pub expire : ℕ
expire = 9

abbrev pub cookie : ℕ
cookie = 10

abbrev pub keepalive : ℕ
keepalive = 11

abbrev pub padding : ℕ
padding = 12

abbrev pub chain : ℕ
chain = 13

abbrev pub key_tag : ℕ
key_tag = 14

abbrev pub ede : ℕ
ede = 15

abbrev pub client_tag : ℕ
client_tag = 16

abbrev pub server_tag : ℕ
server_tag = 17

abbrev pub zoneversion : ℕ
zoneversion = 18
