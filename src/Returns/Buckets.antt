-- ===== src/Returns/Buckets.antt =====
-- The rate buckets: no line is lost, and the rates rise.
use gst_ai_copilot.Base.{
  ◌≡◌, ◌∙◌, true, false, inl, inr, Bool-cases, List, [], ◌∷◌, map, arith, Decimal, ◌+ℤ◌, eqb_ℤ, sum,
  sum-nil, sum-cons, sum-sorted_by, sorted_by, insert_sorted, int_laws, All,
}
use gst_ai_copilot.Returns.{
  ReturnLine, RateBucket, add_line, add_to_bucket, fill_buckets, bucket_by_rate, lower_rate,
  zero_totals,
}
use gst_ai_copilot.Returns.Totals.{
  Figure, of_line, of_totals, line_sum, of_add_line, of_zero_totals,
}

abbrev pub in_bucket : Figure → RateBucket → Decimal
in_bucket f b = of_totals f b.totals

abbrev pub bucket_sum : Figure → List RateBucket → Decimal
bucket_sum f bs = sum (map (in_bucket f) bs)

bucket_sum-add :
    (f : Figure) (l : ReturnLine) (bs : List RateBucket)
    → bucket_sum f (add_to_bucket l bs) ≡ bucket_sum f bs +ℤ of_line f l
unfolding add_to_bucket
bucket_sum-add f l [] =
    rw
      (
        sum-cons (of_totals f (add_line zero_totals l)) [],
        sum-nil,
        of_add_line f zero_totals l,
        of_zero_totals f,
      )
      (omega int_laws)
bucket_sum-add f l (b ∷ bs) = elim (Bool-cases (eqb_ℤ l.gst_rate b.gst_rate)) [
  | inl same ↦ rw same (
      rw
        (
          sum-cons (of_totals f (add_line b.totals l)) (map (in_bucket f) bs),
          of_add_line f b.totals l,
          sum-cons (in_bucket f b) (map (in_bucket f) bs),
        )
        (omega int_laws))
  | inr other ↦ rw other (
      rw
        (
          sum-cons (in_bucket f b) (map (in_bucket f) (add_to_bucket l bs)),
          bucket_sum-add f l bs,
          sum-cons (in_bucket f b) (map (in_bucket f) bs),
        )
        (omega int_laws))
]

bucket_sum-fill :
    (f : Figure) (ls : List ReturnLine) (bs : List RateBucket)
    → bucket_sum f (fill_buckets bs ls) ≡ bucket_sum f bs +ℤ line_sum f ls
unfolding fill_buckets
bucket_sum-fill f [] bs = rw sum-nil (omega int_laws)
bucket_sum-fill f (l ∷ ls) bs =
    rw
      (
        bucket_sum-fill f ls (add_to_bucket l bs),
        bucket_sum-add f l bs,
        sum-cons (of_line f l) (map (of_line f) ls),
      )
      (omega int_laws)

pub bucket_sum-bucket_by_rate :
    (f : Figure) (ls : List ReturnLine) → bucket_sum f (bucket_by_rate ls) ≡ line_sum f ls
unfolding bucket_by_rate
bucket_sum-bucket_by_rate f ls =
    sum-sorted_by lower_rate (in_bucket f) (fill_buckets [] ls)
    ∙ (bucket_sum-fill f ls [] ∙ rw sum-nil (omega int_laws))

-- The rates before sorting are apart.
abbrev IsNewRate : Decimal → List RateBucket → Type 0
IsNewRate r bs = All (λ b. eqb_ℤ r b.gst_rate ≡ false) bs

abbrev RatesApart : List RateBucket → Type 0
RatesApart [] = Unit
RatesApart (b ∷ bs) = IsNewRate b.gst_rate bs × RatesApart bs

add_to_bucket-IsNewRate :
    (r : Decimal) (l : ReturnLine) (bs : List RateBucket)
    → eqb_ℤ r l.gst_rate ≡ false
    → IsNewRate r bs
    → IsNewRate r (add_to_bucket l bs)
unfolding add_to_bucket
add_to_bucket-IsNewRate r l [] ne h = (ne, tt)
add_to_bucket-IsNewRate r l (b ∷ bs) ne h = elim (Bool-cases (eqb_ℤ l.gst_rate b.gst_rate)) [
  | inl same ↦ rw same h
  | inr other ↦ rw other (h.0, add_to_bucket-IsNewRate r l bs ne h.1)
]

add_to_bucket-RatesApart :
    (l : ReturnLine) (bs : List RateBucket) → RatesApart bs → RatesApart (add_to_bucket l bs)
unfolding add_to_bucket
add_to_bucket-RatesApart l [] h = (tt, tt)
add_to_bucket-RatesApart l (b ∷ bs) h = elim (Bool-cases (eqb_ℤ l.gst_rate b.gst_rate)) [
  | inl same ↦ rw same h
  | inr other ↦ rw other (
    add_to_bucket-IsNewRate b.gst_rate l bs (ground arith) h.0,
    add_to_bucket-RatesApart l bs h.1,
  )
]

fill_buckets-RatesApart :
    (ls : List ReturnLine) (bs : List RateBucket) → RatesApart bs → RatesApart (fill_buckets bs ls)
unfolding fill_buckets
fill_buckets-RatesApart [] bs h = h
fill_buckets-RatesApart (l ∷ ls) bs h =
    fill_buckets-RatesApart ls (add_to_bucket l bs) (add_to_bucket-RatesApart l bs h)

-- Each rate is smaller than all that follow.
abbrev pub IsRising : List RateBucket → Type 0
IsRising [] = Unit
IsRising (b ∷ bs) = All (λ c. lower_rate b c ≡ true) bs × IsRising bs

insert-IsNewRate :
    (r : Decimal) (b : RateBucket) (bs : List RateBucket)
    → eqb_ℤ r b.gst_rate ≡ false
    → IsNewRate r bs
    → IsNewRate r (insert_sorted lower_rate b bs)
unfolding insert_sorted
insert-IsNewRate r b [] ne h = (ne, tt)
insert-IsNewRate r b (c ∷ bs) ne h = elim (Bool-cases (lower_rate c b)) [
  | inl t ↦ rw t (h.0, insert-IsNewRate r b bs ne h.1)
  | inr t ↦ rw t (ne, h)
]

sorted-IsNewRate :
    (r : Decimal) (bs : List RateBucket) → IsNewRate r bs → IsNewRate r (sorted_by lower_rate bs)
unfolding sorted_by
sorted-IsNewRate r [] h = tt
sorted-IsNewRate r (b ∷ bs) h =
    insert-IsNewRate r b (sorted_by lower_rate bs) h.0 (sorted-IsNewRate r bs h.1)

insert-lower :
    (a b : RateBucket) (bs : List RateBucket)
    → lower_rate a b ≡ true
    → All (λ c. lower_rate a c ≡ true) bs
    → All (λ c. lower_rate a c ≡ true) (insert_sorted lower_rate b bs)
unfolding insert_sorted
insert-lower a b [] e h = (e, tt)
insert-lower a b (c ∷ bs) e h = elim (Bool-cases (lower_rate c b)) [
  | inl t ↦ rw t (h.0, insert-lower a b bs e h.1)
  | inr t ↦ rw t (e, h)
]

lower_trans :
    (a b : RateBucket) (bs : List RateBucket)
    → lower_rate a b ≡ true
    → All (λ c. lower_rate b c ≡ true) bs
    → All (λ c. lower_rate a c ≡ true) bs
lower_trans a b [] e h = tt
lower_trans a b (c ∷ bs) e h = (ground arith, lower_trans a b bs e h.1)

insert-IsRising :
    (b : RateBucket) (bs : List RateBucket)
    → IsNewRate b.gst_rate bs
    → IsRising bs
    → IsRising (insert_sorted lower_rate b bs)
unfolding insert_sorted
insert-IsRising b [] n h = (tt, tt)
insert-IsRising b (c ∷ bs) n h = elim (Bool-cases (lower_rate c b)) [
  | inl t ↦ rw t (insert-lower c b bs t h.0, insert-IsRising b bs n.1 h.1)
  | inr t ↦ let e : lower_rate b c ≡ true = ground arith in rw t ((e, lower_trans b c bs e h.0), h)
]

sorted-IsRising : (bs : List RateBucket) → RatesApart bs → IsRising (sorted_by lower_rate bs)
unfolding sorted_by
sorted-IsRising [] h = tt
sorted-IsRising (b ∷ bs) h =
    insert-IsRising b (sorted_by lower_rate bs) (sorted-IsNewRate b.gst_rate bs h.0)
      (sorted-IsRising bs h.1)

-- The buckets hold each rate once, from the lowest to the highest, and each figure, summed over
-- the buckets, is its sum over the lines.
pub bucket_by_rate-IsRising :
    (ls : List ReturnLine)
    → IsRising (bucket_by_rate ls)
      × ((f : Figure) → bucket_sum f (bucket_by_rate ls) ≡ line_sum f ls)
unfolding bucket_by_rate
bucket_by_rate-IsRising ls = (
  sorted-IsRising (fill_buckets [] ls) (fill_buckets-RatesApart ls [] tt),
  λ f. bucket_sum-bucket_by_rate f ls,
)
