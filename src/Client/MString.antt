-- ===== src/Client/MString.antt =====
-- client/src/mstring.c, client/include/mstring.h: strings with their length and a NUL behind them.
-- The result `none` is NULL. Two strings in memory are together smaller than 2^64, so that the sum of
-- their sizes is not wrapped. A read behind the end of an argument gives fewer bytes here.
pub mod Contents
use pvs_kp.Base.{ℕ, ◌+◌, ◌*◌, Option, none, some, List, [], ◌∷◌, ◌++◌, length, take, memcpy}
use pvs_kp.Client.Memory.{Alloc, malloc, made, ◌>>=◌}

-- string_t.
pub record MString : Type 0 where
  pub data_ : List ℕ
  pub size : ℕ

-- The two calls of malloc: the struct, and the bytes.
unfoldable pub string_init : ℕ → Alloc MString
unfolding memcpy
string_init size = do
  str ← malloc 16
  data1 ← malloc (size + 1)
  made (record { data_ = memcpy data1 size (0 ∷ []); size = size })

unfoldable pub string_init2 : List ℕ → ℕ → Alloc MString
unfolding string_init memcpy
string_init2 text size = do
  str ← string_init size
  made (record str { data_ = memcpy str.data_ 0 (take size text) })

unfoldable pub string_copy : MString → Alloc MString
unfolding string_init2
string_copy str = string_init2 str.data_ str.size

unfoldable pub concat : MString → MString → Alloc MString
unfolding string_init2 memcpy
concat first second = do
  let size = first.size + second.size
  concated ← malloc size
  let b1 = memcpy concated 0 (take first.size first.data_)
  string_init2 (memcpy b1 first.size (take second.size second.data_)) size

unfoldable pub concat_with_sep : MString → MString → ℕ → Alloc MString
unfolding string_init2 memcpy
concat_with_sep first second sep = do
  let size = first.size + second.size + 1
  concated ← malloc size
  let b1 = memcpy concated 0 (take first.size first.data_)
  let b2 = memcpy b1 first.size (sep ∷ [])
  string_init2 (memcpy b2 (first.size + 1) (take second.size second.data_)) size
