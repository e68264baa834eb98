-- ===== src/Sockets/Manager/Order.antt =====
-- x
