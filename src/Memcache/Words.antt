-- ===== src/Memcache/Words.antt =====
-- The words of the commands that src/uDepot/net/mc-helpers.cc knows.
use u_depot.Base.{ℕ, List, [], ◌∷◌}

abbrev pub get_word : List ℕ
get_word = b'g' ∷ b'e' ∷ b't' ∷ []

abbrev pub gets_word : List ℕ
gets_word = b'g' ∷ b'e' ∷ b't' ∷ b's' ∷ []

abbrev pub bget_word : List ℕ
bget_word = b'b' ∷ b'g' ∷ b'e' ∷ b't' ∷ []

abbrev pub add_word : List ℕ
add_word = b'a' ∷ b'd' ∷ b'd' ∷ []

abbrev pub set_word : List ℕ
set_word = b's' ∷ b'e' ∷ b't' ∷ []

abbrev pub replace_word : List ℕ
replace_word = b'r' ∷ b'e' ∷ b'p' ∷ b'l' ∷ b'a' ∷ b'c' ∷ b'e' ∷ []

abbrev pub prepend_word : List ℕ
prepend_word = b'p' ∷ b'r' ∷ b'e' ∷ b'p' ∷ b'e' ∷ b'n' ∷ b'd' ∷ []

abbrev pub append_word : List ℕ
append_word = b'a' ∷ b'p' ∷ b'p' ∷ b'e' ∷ b'n' ∷ b'd' ∷ []

abbrev pub cas_word : List ℕ
cas_word = b'c' ∷ b'a' ∷ b's' ∷ []

abbrev pub incr_word : List ℕ
incr_word = b'i' ∷ b'n' ∷ b'c' ∷ b'r' ∷ []

abbrev pub decr_word : List ℕ
decr_word = b'd' ∷ b'e' ∷ b'c' ∷ b'r' ∷ []

abbrev pub delete_word : List ℕ
delete_word = b'd' ∷ b'e' ∷ b'l' ∷ b'e' ∷ b't' ∷ b'e' ∷ []

abbrev pub touch_word : List ℕ
touch_word = b't' ∷ b'o' ∷ b'u' ∷ b'c' ∷ b'h' ∷ []

abbrev pub stats_word : List ℕ
stats_word = b's' ∷ b't' ∷ b'a' ∷ b't' ∷ b's' ∷ []

abbrev pub flush_all_word : List ℕ
flush_all_word = b'f' ∷ b'l' ∷ b'u' ∷ b's' ∷ b'h' ∷ b'_' ∷ b'a' ∷ b'l' ∷ b'l' ∷ []

abbrev pub version_word : List ℕ
version_word = b'v' ∷ b'e' ∷ b'r' ∷ b's' ∷ b'i' ∷ b'o' ∷ b'n' ∷ []

abbrev pub quit_word : List ℕ
quit_word = b'q' ∷ b'u' ∷ b'i' ∷ b't' ∷ []

abbrev pub shutdown_word : List ℕ
shutdown_word = b's' ∷ b'h' ∷ b'u' ∷ b't' ∷ b'd' ∷ b'o' ∷ b'w' ∷ b'n' ∷ []

abbrev pub slabs_word : List ℕ
slabs_word = b's' ∷ b'l' ∷ b'a' ∷ b'b' ∷ b's' ∷ []

abbrev pub lru_crawler_word : List ℕ
lru_crawler_word = b'l' ∷ b'r' ∷ b'u' ∷ b'_' ∷ b'c' ∷ b'r' ∷ b'a' ∷ b'w' ∷ b'l' ∷ b'e' ∷ b'r' ∷ []

abbrev pub watch_word : List ℕ
watch_word = b'w' ∷ b'a' ∷ b't' ∷ b'c' ∷ b'h' ∷ []

abbrev pub cache_memlimit_word : List ℕ
cache_memlimit_word =
    b'c' ∷ b'a' ∷ b'c' ∷ b'h' ∷ b'e' ∷ b'_' ∷ b'm' ∷ b'e' ∷ b'm' ∷ b'l' ∷ b'i' ∷ b'm' ∷ b'i' ∷ b't'
    ∷ []

abbrev pub verbosity_word : List ℕ
verbosity_word = b'v' ∷ b'e' ∷ b'r' ∷ b'b' ∷ b'o' ∷ b's' ∷ b'i' ∷ b't' ∷ b'y' ∷ []

abbrev pub noreply_word : List ℕ
noreply_word = b'n' ∷ b'o' ∷ b'r' ∷ b'e' ∷ b'p' ∷ b'l' ∷ b'y' ∷ []
