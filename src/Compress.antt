-- ===== src/Compress.antt =====
-- src/compress.c: compression of large blobs by zlib, with bounds on both sizes.
use fido2_manage.Prelude.{ℕ, ◌*◌, ◌||◌, List, Option, none, some, length, ltb, ◌==◌, if◌then◌else◌}
use fido2_manage.Err.{err_invalid_argument, err_compress}
use fido2_manage.Try.{Ret, val, err}

-- zlib, given bytes and the size of the output buffer. `uncompress` and `inflate` give the bytes
-- that were written (`none` if they fail, or if the stream does not end), and so does `deflate`.
pub record Zlib : Type 0 where
  pub uncompress : List ℕ → ℕ → Option (List ℕ)
  pub inflate : List ℕ → ℕ → Option (List ℕ)
  pub deflate : List ℕ → ℕ → Option (List ℕ)

abbrev pub bound : ℕ
bound = 1024 * 1024

-- The output must have exactly the size that was announced.
abbrev pub exactly : ℕ → Option (List ℕ) → Ret (List ℕ)
exactly n none = err err_compress
exactly n (some bs) = if length bs == n then val bs else err err_compress

unfoldable pub rfc1950_inflate : Zlib → List ℕ → ℕ → Ret (List ℕ)
rfc1950_inflate z bs origsiz =
    if ltb bound (length bs) || ltb bound origsiz
    then err err_invalid_argument
    else exactly origsiz (z.uncompress bs origsiz)

unfoldable pub rfc1951_inflate : Zlib → List ℕ → ℕ → Ret (List ℕ)
rfc1951_inflate z bs origsiz =
    if ltb bound (length bs) || ltb bound origsiz
    then err err_invalid_argument
    else exactly origsiz (z.inflate bs origsiz)

-- `avail_out >= out->len`: nothing was written.
abbrev pub something : Option (List ℕ) → Ret (List ℕ)
something none = err err_compress
something (some bs) = if length bs == 0 then err err_compress else val bs

unfoldable pub rfc1951_deflate : Zlib → List ℕ → Ret (List ℕ)
rfc1951_deflate z bs =
    if ltb bound (length bs) then err err_invalid_argument else something (z.deflate bs bound)

unfoldable pub fido_compress : Zlib → List ℕ → Ret (List ℕ)
fido_compress z bs = rfc1951_deflate z bs

abbrev pub or_raw : Ret (List ℕ) → Ret (List ℕ) → Ret (List ℕ)
or_raw (val bs) raw = val bs
or_raw (err code) raw = raw

unfoldable pub fido_uncompress : Zlib → List ℕ → ℕ → Ret (List ℕ)
fido_uncompress z bs origsiz = or_raw (rfc1950_inflate z bs origsiz) (rfc1951_inflate z bs origsiz)
