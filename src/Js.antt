-- ===== src/Js.antt =====
-- What the program uses of the JavaScript language and its library.
pub mod Number
pub mod Text
pub mod Date
pub mod Sets
