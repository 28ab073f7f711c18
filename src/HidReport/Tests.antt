-- ===== src/HidReport/Tests.antt =====
-- A report descriptor of a FIDO token, and the theorems at it.
use fido2_manage.Prelude.{
  ℕ, ◌≡◌, ◌≢◌, ◌↔◌, refl, true, false, List, [], ◌∷◌, none, some, All, arith,
}
use fido2_manage.HidReport.{walk, next_item, ReportLen, fido_hid_get_usage, fido_hid_get_report_len}
use fido2_manage.HidReport.Items.{Item, IsItem, encode}
use fido2_manage.HidReport.Last.{usage_page, report_count, input, output, IsLast, IsSizeAt}
use fido2_manage.HidReport.Exact.{get_usage-exact, get_report_len-exact}

-- Usage page 0xf1d0, report count 64, input, report count 32, output.
abbrev token : List ℕ
token = 0x06 ∷ 0xd0 ∷ 0xf1 ∷ 0x95 ∷ 64 ∷ 0x81 ∷ 0x02 ∷ 0x95 ∷ 32 ∷ 0x91 ∷ 0x02 ∷ []

token_usage : fido_hid_get_usage token 0 ≡ some (true, 0xf1d0)
unfolding fido_hid_get_usage walk next_item
token_usage = refl

token_report_len :
    fido_hid_get_report_len token 0 0
    ≡ some (true, record { report_size = 32; report_in_len = 64; report_out_len = 32 })
unfolding fido_hid_get_report_len walk next_item
token_report_len = refl

-- A long item is refused.
long_item : fido_hid_get_usage (0xfe ∷ []) 7 ≡ some (false, 7)
unfolding fido_hid_get_usage walk next_item
long_item = refl

get_usage-exact_example :
    (fido_hid_get_usage token 0 ≢ none)
    × ((page' : ℕ)
        → (fido_hid_get_usage token 0 ≡ some (true, page')) ↔ (
            (is : List Item) × (All IsItem is)
            × (token ≡ encode is)
            × IsLast usage_page 0 is page'))
get_usage-exact_example = get_usage-exact token 0 (omega arith)

get_report_len-exact_example :
    (fido_hid_get_report_len token 0 0 ≢ none)
    × ((s : ReportLen)
        → (fido_hid_get_report_len token 0 0 ≡ some (true, s)) ↔ (
            (is : List Item) × (All IsItem is)
            × (token ≡ encode is)
            × IsLast report_count 0 is s.report_size
            × IsSizeAt input 0 0 is s.report_in_len
            × IsSizeAt output 0 0 is s.report_out_len))
get_report_len-exact_example = get_report_len-exact token 0 0 (omega arith)
