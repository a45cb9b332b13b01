-- ===== src/Str.antt =====
-- The string and memory functions of src/libc/string, over a flat memory of bytes. A pointer is an
-- address; NULL is 0. A loop that ends at a terminator runs on fuel for the whole address space,
-- and `none` means that it met no terminator there.
pub mod Layout
pub mod Move
pub mod Compare
pub mod Search
pub mod Copy
mod Tests
use os1_meaty_skeleton.Prelude.{
  ℕ, zero, suc, ◌+◌, ◌-◌, ◌%◌, ◌^◌, Bool, true, false, not, ◌&&◌, Option, none, some, ltb, leb,
  ◌==◌, if◌then◌else◌,
}
use os1_meaty_skeleton.Prelude.Int.{ℤ, pos, sub_ℕ}

abbrev pub Bytes : Type 0
Bytes = ℕ → ℕ

-- `*p = v`
abbrev pub store : Bytes → ℕ → ℕ → Bytes
store m p v x = if x == p then v else m x

-- No string is longer than the address space.
abbrev pub space : ℕ
space = 2 ^ 32

-- memcmp.c; `i` is the loop's index, the number of rounds left is recurred on.
memcmp_loop : Bytes → ℕ → ℕ → ℕ → ℕ → ℤ
memcmp_loop m a b i zero = pos 0
memcmp_loop m a b i (suc n) =
    let rest = memcmp_loop m a b (i + 1) n in
    if ltb (m (a + i)) (m (b + i))
    then sub_ℕ 0 1
    else (if ltb (m (b + i)) (m (a + i)) then pos 1 else rest)

unfoldable pub memcmp : Bytes → ℕ → ℕ → ℕ → ℤ
unfolding memcmp_loop
memcmp m a b size = memcmp_loop m a b 0 size

-- The upward loop of memcpy.c and memmove.c, which reads what it has written so far.
copy_up : Bytes → ℕ → ℕ → ℕ → ℕ → Bytes
copy_up m dst src i zero = m
copy_up m dst src i (suc n) = copy_up (store m (dst + i) (m (src + i))) dst src (i + 1) n

-- The downward loop of memmove.c: `for (i = size; i != 0; i--) dst[i-1] = src[i-1]`.
copy_down : Bytes → ℕ → ℕ → ℕ → Bytes
copy_down m dst src zero = m
copy_down m dst src (suc i) = copy_down (store m (dst + i) (m (src + i))) dst src i

unfoldable pub memcpy : Bytes → ℕ → ℕ → ℕ → Bytes
unfolding copy_up
memcpy m dst src size = copy_up m dst src 0 size

unfoldable pub memmove : Bytes → ℕ → ℕ → ℕ → Bytes
unfolding copy_up copy_down
memmove m dst src size = if ltb dst src then copy_up m dst src 0 size else copy_down m dst src size

memset_loop : Bytes → ℕ → ℕ → ℕ → ℕ → Bytes
memset_loop m buf v i zero = m
memset_loop m buf v i (suc n) = memset_loop (store m (buf + i) (v % 256)) buf v (i + 1) n

-- memset.c; the value is cast to `unsigned char`.
unfoldable pub memset : Bytes → ℕ → ℕ → ℕ → Bytes
unfolding memset_loop
memset m buf v size = memset_loop m buf v 0 size

unfoldable pub strlen_loop : ℕ → Bytes → ℕ → ℕ → Option ℕ
strlen_loop zero m str len = none
strlen_loop (suc k) m str len =
    let rest = strlen_loop k m str (len + 1) in if m (str + len) == 0 then some len else rest

unfoldable pub strlen : Bytes → ℕ → Option ℕ
strlen m str = strlen_loop space m str 0

unfoldable pub strcmp_loop : ℕ → Bytes → ℕ → ℕ → Option ℤ
strcmp_loop zero m s1 s2 = none
strcmp_loop (suc k) m s1 s2 =
    let rest = strcmp_loop k m (s1 + 1) (s2 + 1) in
    if not (m s1 == 0) && (m s1 == m s2) then rest else some (sub_ℕ (m s1) (m s2))

unfoldable pub strcmp : Bytes → ℕ → ℕ → Option ℤ
strcmp m s1 s2 = strcmp_loop space m s1 s2

-- `tolower` of stricmp.c
unfoldable pub tolower : ℕ → ℕ
tolower c = if leb b'A' c && leb c b'Z' then c + 32 else c

-- `toupper` of stricmp.c, which nothing calls.
abbrev toupper : ℕ → ℕ
toupper c = if leb b'a' c && leb c b'z' then c - 32 else c

unfoldable pub stricmp_loop : ℕ → Bytes → ℕ → ℕ → Option ℤ
stricmp_loop zero m s1 s2 = none
stricmp_loop (suc k) m s1 s2 =
    let rest = stricmp_loop k m (s1 + 1) (s2 + 1) in
    if not (m s1 == 0) && (tolower (m s1) == tolower (m s2))
    then rest
    else some (sub_ℕ (tolower (m s1)) (tolower (m s2)))

unfoldable pub stricmp : Bytes → ℕ → ℕ → Option ℤ
stricmp m s1 s2 = stricmp_loop space m s1 s2

-- strncmp.c: the loop counts `n` down and looks for no terminator.
strncmp_loop : Bytes → ℕ → ℕ → ℕ → ℤ
strncmp_loop m s1 s2 zero = sub_ℕ (m s1) (m s2)
strncmp_loop m s1 s2 (suc n) =
    let rest = strncmp_loop m (s1 + 1) (s2 + 1) n in
    if m s1 == m s2 then rest else sub_ℕ (m s1) (m s2)

unfoldable pub strncmp : Bytes → ℕ → ℕ → ℕ → ℤ
unfolding strncmp_loop
strncmp m s1 s2 n = if ltb n 1 then pos 0 else strncmp_loop m s1 s2 n

unfoldable pub strchr_loop : ℕ → Bytes → ℕ → ℕ → Option ℕ
strchr_loop zero m s c = none
strchr_loop (suc k) m s c =
    let rest = strchr_loop k m (s + 1) c in
    if m s == 0 then some (if c == 0 then s else 0) else (if m s == c % 256 then some s else rest)

unfoldable pub strchr : Bytes → ℕ → ℕ → Option ℕ
strchr m s c = strchr_loop space m s c

unfoldable pub strrchr_loop : ℕ → Bytes → ℕ → ℕ → ℕ → Option ℕ
strrchr_loop zero m s c last = none
strrchr_loop (suc k) m s c last =
    let rest = strrchr_loop k m (s + 1) c (if m s == c % 256 then s else last) in
    if m s == 0 then some (if c == 0 then s else last) else rest

unfoldable pub strrchr : Bytes → ℕ → ℕ → Option ℕ
strrchr m s c = strrchr_loop space m s c 0

unfoldable pub strcpy_loop : ℕ → Bytes → ℕ → ℕ → Option Bytes
strcpy_loop zero m dest src = none
strcpy_loop (suc k) m dest src =
    let rest = strcpy_loop k (store m dest (m src)) (dest + 1) (src + 1) in
    if m src == 0 then some (store m dest 0) else rest

-- The result of strcpy.c is `dest` itself; the memory is what matters.
unfoldable pub strcpy : Bytes → ℕ → ℕ → Option Bytes
strcpy m dest src = strcpy_loop space m dest src

-- strcat.c finds the end of `dest`, and copies from there with the loop that strcpy.c has too.
unfoldable pub strcat_loop : ℕ → Bytes → ℕ → ℕ → Option Bytes
strcat_loop zero m dest src = none
strcat_loop (suc k) m dest src =
    let rest = strcat_loop k m (dest + 1) src in
    if m dest == 0 then strcpy_loop space m dest src else rest

unfoldable pub strcat : Bytes → ℕ → ℕ → Option Bytes
strcat m dest src = strcat_loop space m dest src

-- The second loop of strncpy.c pads with zeros; `i` is the index reached.
strncpy_pad : Bytes → ℕ → ℕ → ℕ → Bytes
strncpy_pad m dest i zero = m
strncpy_pad m dest i (suc n) = strncpy_pad (store m (dest + i) 0) dest (i + 1) n

strncpy_loop : Bytes → ℕ → ℕ → ℕ → ℕ → Bytes
strncpy_loop m dest src i zero = m
strncpy_loop m dest src i (suc n) =
    let rest = strncpy_loop (store m (dest + i) (m (src + i))) dest src (i + 1) n in
    if m (src + i) == 0 then strncpy_pad m dest i (suc n) else rest

unfoldable pub strncpy : Bytes → ℕ → ℕ → ℕ → Bytes
unfolding strncpy_loop strncpy_pad
strncpy m dest src n = strncpy_loop m dest src 0 n
