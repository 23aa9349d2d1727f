-- ===== src/Fix/Tags.antt =====
-- The constants of namespace Tags that the parser and the builder use.
use hft_engine.Base.{ℕ}

abbrev pub begin_string : ℕ
begin_string = 8

abbrev pub body_length : ℕ
body_length = 9

abbrev pub check_sum : ℕ
check_sum = 10

abbrev pub msg_seq_num : ℕ
msg_seq_num = 34

abbrev pub msg_type : ℕ
msg_type = 35

abbrev pub sender_comp_id : ℕ
sender_comp_id = 49

abbrev pub sending_time : ℕ
sending_time = 52

abbrev pub target_comp_id : ℕ
target_comp_id = 56

abbrev pub cl_ord_id : ℕ
cl_ord_id = 11

abbrev pub order_id : ℕ
order_id = 37

abbrev pub symbol : ℕ
symbol = 55

abbrev pub side : ℕ
side = 54

abbrev pub order_qty : ℕ
order_qty = 38

abbrev pub price : ℕ
price = 44

abbrev pub time_in_force : ℕ
time_in_force = 59

abbrev pub ord_type : ℕ
ord_type = 40
