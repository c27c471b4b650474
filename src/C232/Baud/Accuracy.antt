-- ===== src/C232/Baud/Accuracy.antt =====
-- How near the realized rate is, and what the chip is told (src/uart/c232/vcp.rs).
