-- ===== src/Returns/Tests.antt =====
-- A period with two registered buyers, a counter sale and a purchase.
use gst_ai_copilot.Base.{ℕ, ◌≡◌, Option, none, some, List, [], ◌∷◌, pos, ◌+ℤ◌, Text, codes}
use gst_ai_copilot.Returns.{
  ReturnLine, ReturnInvoice, build_gstr1, build_gstr3b, sales_of, purchases_of, all_lines,
}
use gst_ai_copilot.Returns.Totals.{Figure, of_totals, line_sum}
use gst_ai_copilot.Returns.Buckets.{bucket_sum}
use gst_ai_copilot.Returns.Groups.{group_sum}
use gst_ai_copilot.Returns.Summaries.{build_gstr1_adds_up, IsNetOf, build_gstr3b_net}

abbrev line : ℕ → ℕ → ℕ → ReturnLine
line value rate tax = record {
  taxable_value = pos value;
  gst_rate = pos rate;
  cgst = pos tax;
  sgst = pos tax;
  igst = pos 0;
  cess = pos 0;
}

abbrev invoice : Text → Option Text → List ReturnLine → ReturnInvoice
invoice direction gstin lines = record {
  direction = direction;
  invoice_number = some (codes "INV-1");
  invoice_date = none;
  counterparty_name = none;
  counterparty_gstin = gstin;
  place_of_supply = some (codes "27");
  lines = lines;
}

abbrev period_invoices : List ReturnInvoice
period_invoices =
    invoice (codes "sales") (some (codes "27AAPFU0939F1ZV"))
      (line 1_000_000 180_000 90_000 ∷ line 500_000 50_000 12_500 ∷ [])
    ∷ invoice (codes "sales") none (line 200_000 180_000 18_000 ∷ [])
    ∷ invoice (codes "purchase") (some (codes "29AAPFU0939F1ZR")) (line 300_000 180_000 27_000 ∷ [])
    ∷ invoice (codes "sales") (some (codes "29AAPFU0939F1ZR")) (line 100_000 180_000 9_000 ∷ [])
    ∷ []

abbrev march : Text
march = codes "2026-03"

build_gstr1_adds_up_example :
    let s = build_gstr1 march period_invoices in
    (group_sum Figure.cgst s.b2b +ℤ group_sum Figure.cgst s.b2c ≡ of_totals Figure.cgst s.totals)
    × (bucket_sum Figure.cgst s.rate_wise ≡ of_totals Figure.cgst s.totals)
    × (of_totals Figure.cgst s.totals ≡ line_sum Figure.cgst (all_lines (sales_of period_invoices)))
build_gstr1_adds_up_example = build_gstr1_adds_up march period_invoices Figure.cgst

build_gstr3b_net_example :
    let n = (build_gstr3b march period_invoices).net_tax_payable in
    let out = λ (f : Figure). line_sum f (all_lines (sales_of period_invoices)) in
    let itc = λ (f : Figure). line_sum f (all_lines (purchases_of period_invoices)) in
    IsNetOf n.cgst (out Figure.cgst) (itc Figure.cgst)
    × IsNetOf n.sgst (out Figure.sgst) (itc Figure.sgst)
    × IsNetOf n.igst (out Figure.igst) (itc Figure.igst)
    × IsNetOf n.cess (out Figure.cess) (itc Figure.cess)
    × (n.total_tax ≡ n.cgst +ℤ n.sgst +ℤ n.igst +ℤ n.cess)
build_gstr3b_net_example = build_gstr3b_net march period_invoices
